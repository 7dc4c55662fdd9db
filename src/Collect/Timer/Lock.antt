-- ===== src/Collect/Timer/Lock.antt =====
-- The timers of several workers over one zone: the steps between which the other workers run, with
-- the lock `collector_lock` that `ngx_http_monitoring_collect` takes and gives back
-- (src/ngx_http_monitoring_collectors.c), and what else the module does to the zone.
use ngx_http_monitoring_modu.Prelude.{ℕ, ◌≤◌, ◌≡◌, List, ◌∷◌, Bool, true, false, Removes}
use ngx_http_monitoring_modu.State.{ShCtx}
use ngx_http_monitoring_modu.Http.{MainConf, Process, Request}
use ngx_http_monitoring_modu.Metrics.Methods.{MethodBits}
use ngx_http_monitoring_modu.Account.{account}
use ngx_http_monitoring_modu.RateLimit.{open_window, count_against}
use ngx_http_monitoring_modu.History.{DoubleOps, resize}
use ngx_http_monitoring_modu.Collect.Libc.{Libc}
use ngx_http_monitoring_modu.Collect.Timer.{mark_worker, unmark_worker, enter, gather, leave}

-- The zone, and the workers between the taking of the lock and its release.
pub record Workers (Double : Type 0) : Type 0 where
  pub shared : ShCtx Double
  pub inside : List Process

-- The worker is inside if it has got the lock.
abbrev pub entered :
    {Double : Type 0} → Process → List Process → Bool × ShCtx Double → Workers Double
entered p ps (true, sh) = record { shared = sh; inside = p ∷ ps }
entered p ps (false, sh) = record { shared = sh; inside = ps }

module _ {Double : Type 0} (libc : Libc Double) (ops : DoubleOps Double) (scaled : ℕ → ℕ → ℕ)
    (crc32 : List ℕ → ℕ) (bits : MethodBits) where
  -- A timer's steps, the death of a process inside, the start and the exit of a process, an accounted
  -- request, a request against the rate limit, an event stream, which writes two counters only (here
  -- any values for them), and a reload.
  pub data Move : Workers Double → Workers Double → Type 0 where
    begins :
        {sh : ShCtx Double} {ps : List Process} {s' : Workers Double} (conf : MainConf)
        (p : Process)
        → 1 ≤ p.pid
        → s' ≡ entered p ps (enter libc ops scaled conf p sh)
        → Move (record { shared = sh; inside = ps }) s'
    gathers :
        {sh sh' : ShCtx Double} {ps qs : List Process} (conf : MainConf) (p : Process)
        → Removes p ps qs
        → sh' ≡ gather libc ops scaled conf p sh
        → Move (record { shared = sh; inside = ps }) (record { shared = sh'; inside = ps })
    ends :
        {sh sh' : ShCtx Double} {ps qs : List Process} (conf : MainConf) (p : Process)
        → Removes p ps qs
        → sh' ≡ leave libc ops scaled conf p sh
        → Move (record { shared = sh; inside = ps }) (record { shared = sh'; inside = qs })
    dies :
        {sh : ShCtx Double} {ps qs : List Process} (p : Process)
        → Removes p ps qs
        → Move (record { shared = sh; inside = ps }) (record { shared = sh; inside = qs })
    starts :
        {sh sh' : ShCtx Double} {ps : List Process} (p : Process)
        → sh' ≡ record sh { workers = mark_worker p sh.workers }
        → Move (record { shared = sh; inside = ps }) (record { shared = sh'; inside = ps })
    exits :
        {sh sh' : ShCtx Double} {ps : List Process} (p : Process)
        → sh' ≡ record sh { workers = unmark_worker p sh.workers }
        → Move (record { shared = sh; inside = ps }) (record { shared = sh'; inside = ps })
    logs :
        {sh sh' : ShCtx Double} {ps : List Process} (p : Process) (conf : MainConf) (r : Request)
        → sh' ≡ account crc32 bits p conf r sh
        → Move (record { shared = sh; inside = ps }) (record { shared = sh'; inside = ps })
    limits :
        {sh sh' : ShCtx Double} {ps : List Process} (now rate_limit : ℕ)
        → sh' ≡ (count_against rate_limit (open_window now sh)).1
        → Move (record { shared = sh; inside = ps }) (record { shared = sh'; inside = ps })
    streams :
        {sh sh' : ShCtx Double} {ps : List Process} (clients events : ℕ)
        → sh' ≡ record sh {
          connections = record sh.connections { sse_clients = clients; sse_events = events };
        }
        → Move (record { shared = sh; inside = ps }) (record { shared = sh'; inside = ps })
    reloads :
        {sh sh' : ShCtx Double} {ps : List Process} (conf : MainConf)
        → sh' ≡ resize conf sh
        → Move (record { shared = sh; inside = ps }) (record { shared = sh'; inside = ps })

  -- The states that can follow.
  pub data Reaches (s : Workers Double) : Workers Double → Type 0 where
    stays : Reaches s s
    then_moves : {t u : Workers Double} → Reaches s t → Move t u → Reaches s u
