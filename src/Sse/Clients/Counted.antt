-- ===== src/Sse/Clients/Counted.antt =====
-- The number of clients that the zone shows (src/ngx_http_monitoring_sse.c).
use ngx_http_monitoring_modu.Prelude.{
  ℕ, ◌+◌, ◌^◌, ◌<◌, ◌≡◌, refl, sym, ap, subst, ◌∙◌, arith, List, [], Option, none, some, Bool-cases,
  inl, inr, length, add_word, All, All-Removes, All-Replaces, All-Replaces_old, length-Removes,
  length-Replaces,
}
use ngx_http_monitoring_modu.State.{ShCtx}
use ngx_http_monitoring_modu.Http.{MainConf, Process, Request, Nginx, Rc}
use ngx_http_monitoring_modu.Metrics.Methods.{MethodBits}
use ngx_http_monitoring_modu.Account.{account, account_upstream, update_tops, count_connection}
use ngx_http_monitoring_modu.RateLimit.{open_window, reset_window, count_against}
use ngx_http_monitoring_modu.History.{DoubleOps, resize}
use ngx_http_monitoring_modu.Format.{Digits}
use ngx_http_monitoring_modu.Exchange.{Exchange}
use ngx_http_monitoring_modu.Collect.Libc.{Libc}
use ngx_http_monitoring_modu.Collect.Timer.Run.{collected-sse_clients}
use ngx_http_monitoring_modu.Sse.{SseClient, sse_cleanup}
use ngx_http_monitoring_modu.Sse.Clients.{
  Hub, joined, HubMove, opens, ticks, cleans, collects, logs, limits, reloads, HubReaches, stays,
  then_moves,
}
use ngx_http_monitoring_modu.Sse.Clients.Step.{
  IsLive, Counts, Kept, Started, sse_timer-Kept, send_sse-Started, sse_cleanup-Counts,
}

-- The zone's number of clients is theirs, and each is live.
pub record IsCounted {Double : Type 0} (s : Hub Double) : Type 0 where
  pub count : s.shared.connections.sse_clients ≡ length s.clients
  pub live : All IsLive s.clients
  pub bound : length s.clients < 2 ^ 64

module _ {Double : Type 0} where
  Counts-zone :
      (n : ℕ) (place : Option (ShCtx Double)) (sh : ShCtx Double)
      → Counts n place
      → place ≡ some sh
      → sh.connections.sse_clients ≡ n
  Counts-zone n place sh k e = subst (Counts n) e k

  account-sse_clients :
      (crc32 : List ℕ → ℕ) (bits : MethodBits) (p : Process) (conf : MainConf) (r : Request)
      (sh : ShCtx Double)
      → (account crc32 bits p conf r sh).connections.sse_clients ≡ sh.connections.sse_clients
  unfolding account account_upstream update_tops count_connection
  account-sse_clients crc32 bits p conf r sh = elim (Bool-cases conf.shpool) [
    | inl b ↦ rw (b) refl
    | inr b ↦ rw (b) refl
  ]

  limits-sse_clients :
      (now rate_limit : ℕ) (sh : ShCtx Double)
      → (count_against rate_limit (open_window now sh)).1.connections.sse_clients
        ≡ sh.connections.sse_clients
  unfolding count_against open_window reset_window
  limits-sse_clients now rate_limit sh = ground arith

  resize-sse_clients :
      (conf : MainConf) (sh : ShCtx Double)
      → (resize conf sh).connections.sse_clients ≡ sh.connections.sse_clients
  unfolding resize
  resize-sse_clients conf sh = refl

  -- A step of another part of the module.
  kept-IsCounted :
      (sh sh' : ShCtx Double) (cs : List SseClient)
      → sh'.connections.sse_clients ≡ sh.connections.sse_clients
      → IsCounted (record { shared = sh; clients = cs })
      → IsCounted (record { shared = sh'; clients = cs })
  kept-IsCounted sh sh' cs e k = record { count = e ∙ k.count; live = k.live; bound = k.bound }

  joined-IsCounted :
      (sh sh' : ShCtx Double) (cs : List SseClient) (r : Rc × Option SseClient × Exchange Double)
      → length cs + 1 < 2 ^ 64
      → Started sh.connections.sse_clients r
      → r.2.zone ≡ some sh'
      → IsCounted (record { shared = sh; clients = cs })
      → IsCounted (record { shared = sh'; clients = joined r.1 cs })
  joined-IsCounted sh sh' cs (rc, none, x) h s z k =
      kept-IsCounted sh sh' cs (Counts-zone sh.connections.sse_clients x.zone sh' s z) k
  joined-IsCounted sh sh' cs (rc, some c, x) h (l, s) z k =
      let n = Counts-zone (add_word sh.connections.sse_clients 1) x.zone sh' s z in
      let m = k.count in
      record { count = omega (arith, n, m, h); live = (l, k.live); bound = omega (arith, h) }

module _ {Double : Type 0} (libc : Libc Double) (ops : DoubleOps Double) (scaled : ℕ → ℕ → ℕ)
    (digits : Digits Double) (ngx : Nginx) where
  HubMove-IsCounted :
      {s s' : Hub Double} → HubMove libc ops scaled digits ngx s s' → IsCounted s → IsCounted s'
  HubMove-IsCounted (opens {sh} {sh'} {cs} p conf header_only x x' rc c h z e z') k =
      joined-IsCounted sh sh' cs (rc, c, x') h
        (subst (Started sh.connections.sse_clients) e
          (send_sse-Started ops scaled digits p ngx header_only conf x sh z))
        z' k
  HubMove-IsCounted (ticks {sh} {sh'} {cs} {cs'} p conn_error buffered c c' x x' r t z e z') k =
      let kept : IsLive c → Kept sh.connections.sse_clients (c', x') = λ l.
        subst (Kept sh.connections.sse_clients) e
          (sse_timer-Kept ops scaled digits p ngx conn_error buffered c x sh z l) in
      let zone : IsLive c → sh'.connections.sse_clients ≡ sh.connections.sse_clients =
        λ l. Counts-zone sh.connections.sse_clients x'.zone sh' (kept l).1 z' in
      let n = length-Replaces r in
      let m = k.count in
      let b = k.bound in
      record {
        count = zone (All-Replaces_old IsLive r k.live) ∙ m ∙ sym n;
        live = All-Replaces IsLive r (λ l. (kept l).0) k.live;
        bound = omega (arith, n, b);
      }
  HubMove-IsCounted (cleans {sh} {sh'} {cs} {cs'} c c' r e) k =
      let l = All-Removes IsLive r k.live in
      let n = length-Removes r in
      let m = k.count in
      let b = k.bound in
      record {
        count =
            Counts-zone (length cs') (sse_cleanup c (some sh)).1 sh'
              (sse_cleanup-Counts c sh (length cs') l.0.0 (m ∙ n) (omega (arith, n, b)))
              (ap (λ z. z.1) e);
        live = l.1;
        bound = omega (arith, n, b);
      }
  HubMove-IsCounted (collects {sh} {sh'} {cs} p conf e) k =
      kept-IsCounted sh sh' cs
        (ap (λ z. z.connections.sse_clients) e ∙ collected-sse_clients libc ops scaled conf p sh) k
  HubMove-IsCounted (logs {sh} {sh'} {cs} p conf r e) k =
      kept-IsCounted sh sh' cs
        (ap (λ z. z.connections.sse_clients) e ∙ account-sse_clients ngx.crc32 ngx.bits p conf r sh)
        k
  HubMove-IsCounted (limits {sh} {sh'} {cs} now rate_limit e) k =
      kept-IsCounted sh sh' cs
        (ap (λ z. z.connections.sse_clients) e ∙ limits-sse_clients now rate_limit sh) k
  HubMove-IsCounted (reloads {sh} {sh'} {cs} conf e) k =
      kept-IsCounted sh sh' cs (ap (λ z. z.connections.sse_clients) e ∙ resize-sse_clients conf sh)
        k

  -- From a zone that shows no clients and without a client: after any sequence of requests for
  -- events, timers, cleanups, collections, accounted and limited requests and reloads, with fewer
  -- than `2 ^ 64` clients at a time, the zone shows exactly the number of clients whose request has
  -- not been cleaned up. Each of these is open, and its request is finalized or its timer is set,
  -- with its interval of at least a second: no client is left without a next event or an end.
  pub HubReaches-IsCounted :
      (sh : ShCtx Double) (s : Hub Double)
      → sh.connections.sse_clients ≡ 0
      → HubReaches libc ops scaled digits ngx (record { shared = sh; clients = [] }) s
      → IsCounted s
  HubReaches-IsCounted sh s e stays = record { count = e; live = tt; bound = omega arith }
  HubReaches-IsCounted sh s e (then_moves {t} r m) =
      HubMove-IsCounted m (HubReaches-IsCounted sh t e r)
