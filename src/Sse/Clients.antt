-- ===== src/Sse/Clients.antt =====
-- The clients of server-sent events over one zone (src/ngx_http_monitoring_sse.c): requests that open
-- one, timers, the cleanup of a request's pool, and the rest of the module.
pub mod Step
pub mod Counted
use ngx_http_monitoring_modu.Prelude.{
  ℕ, ◌+◌, ◌^◌, ◌<◌, ◌≡◌, ◌≢◌, Bool, List, ◌∷◌, Option, none, some, length, Removes, Replaces,
}
use ngx_http_monitoring_modu.State.{ShCtx}
use ngx_http_monitoring_modu.Http.{MainConf, Process, Request, Nginx, Rc}
use ngx_http_monitoring_modu.Account.{account}
use ngx_http_monitoring_modu.RateLimit.{open_window, count_against}
use ngx_http_monitoring_modu.History.{DoubleOps, resize}
use ngx_http_monitoring_modu.Format.{Digits}
use ngx_http_monitoring_modu.Exchange.{Exchange}
use ngx_http_monitoring_modu.Collect.Libc.{Libc}
use ngx_http_monitoring_modu.Collect.Timer.{enter, if_entered}
use ngx_http_monitoring_modu.Sse.{SseClient, send_sse, sse_timer, sse_cleanup}

-- The zone, and the clients whose cleanup has not run.
pub record Hub (Double : Type 0) : Type 0 where
  pub shared : ShCtx Double
  pub clients : List SseClient

abbrev pub joined : Option SseClient → List SseClient → List SseClient
joined none clients = clients
joined (some c) clients = c ∷ clients

module _ {Double : Type 0} (libc : Libc Double) (ops : DoubleOps Double) (scaled : ℕ → ℕ → ℕ)
    (digits : Digits Double) (ngx : Nginx) where
  -- `clean` is the end of a request; the cleanup of its pool runs once.
  pub data HubMove : Hub Double → Hub Double → Type 0 where
    opens :
        {sh sh' : ShCtx Double} {cs : List SseClient} (p : Process) (conf : MainConf)
        (header_only : Rc → Bool) (x x' : Exchange Double) (rc : Rc) (c : Option SseClient)
        → length cs + 1 < 2 ^ 64
        → x.zone ≡ some sh
        → send_sse ops scaled digits p ngx header_only (some conf) x ≡ (rc, c, x')
        → x'.zone ≡ some sh'
        → HubMove
            (record { shared = sh; clients = cs })
            (record { shared = sh'; clients = joined c cs })
    ticks :
        {sh sh' : ShCtx Double} {cs cs' : List SseClient} (p : Process) (conn_error buffered : Bool)
        (c c' : SseClient) (x x' : Exchange Double)
        → Replaces c c' cs cs'
        → c.timer ≢ none
        → x.zone ≡ some sh
        → sse_timer ops scaled digits p ngx conn_error buffered c x ≡ (c', x')
        → x'.zone ≡ some sh'
        → HubMove (record { shared = sh; clients = cs }) (record { shared = sh'; clients = cs' })
    cleans :
        {sh sh' : ShCtx Double} {cs cs' : List SseClient} (c c' : SseClient)
        → Removes c cs cs'
        → sse_cleanup c (some sh) ≡ (c', some sh')
        → HubMove (record { shared = sh; clients = cs }) (record { shared = sh'; clients = cs' })
    collects :
        {sh sh' : ShCtx Double} {cs : List SseClient} (p : Process) (conf : MainConf)
        → sh' ≡ if_entered libc ops scaled conf p (enter libc ops scaled conf p sh)
        → HubMove (record { shared = sh; clients = cs }) (record { shared = sh'; clients = cs })
    logs :
        {sh sh' : ShCtx Double} {cs : List SseClient} (p : Process) (conf : MainConf) (r : Request)
        → sh' ≡ account ngx.crc32 ngx.bits p conf r sh
        → HubMove (record { shared = sh; clients = cs }) (record { shared = sh'; clients = cs })
    limits :
        {sh sh' : ShCtx Double} {cs : List SseClient} (now rate_limit : ℕ)
        → sh' ≡ (count_against rate_limit (open_window now sh)).1
        → HubMove (record { shared = sh; clients = cs }) (record { shared = sh'; clients = cs })
    reloads :
        {sh sh' : ShCtx Double} {cs : List SseClient} (conf : MainConf)
        → sh' ≡ resize conf sh
        → HubMove (record { shared = sh; clients = cs }) (record { shared = sh'; clients = cs })

  -- The states that can follow.
  pub data HubReaches (s : Hub Double) : Hub Double → Type 0 where
    stays : HubReaches s s
    then_moves : {t u : Hub Double} → HubReaches s t → HubMove t u → HubReaches s u
