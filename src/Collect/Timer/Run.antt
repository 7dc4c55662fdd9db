-- ===== src/Collect/Timer/Run.antt =====
-- One run of the timer's handler (src/ngx_http_monitoring_collectors.c).
use ngx_http_monitoring_modu.Prelude.{
  ℕ, ◌+◌, ◌^◌, ◌<◌, ◌≡◌, ◌≢◌, refl, sym, ap, ◌∙◌, Bool, true, false, Bool-cases, ◌⊎◌, inl, inr,
  ◌==◌, if◌then◌else◌, not, ◌&&◌, List, some, none, codes, add_word,
}
use ngx_http_monitoring_modu.State.{ShCtx, HistorySample}
use ngx_http_monitoring_modu.Http.{MainConf, Process}
use ngx_http_monitoring_modu.History.{
  DoubleOps, collect_history, average, push_sample, keep_totals, is_early,
}
use ngx_http_monitoring_modu.History.Laws.{IsRing}
use ngx_http_monitoring_modu.Collect.Libc.{Libc, read_text}
use ngx_http_monitoring_modu.Collect.Timer.{Collector, enter, gather, leave, if_entered, collect}
use ngx_http_monitoring_modu.Collect.Timer.Kept.{Keeps, gather-KeepsLock, enter-cases}
use ngx_http_monitoring_modu.Collect.Timer.Views.{tables_of, former, refreshed, KeepsStored}
use ngx_http_monitoring_modu.Collect.Timer.Gathers.{
  enter-KeepsStored, leave-tables_of, leave-system, gather-tables_of, gather-former,
}
use ngx_http_monitoring_modu.Collect.Timer.Sampled.{Samples, leave-Samples}

module _ {Double : Type 0} (libc : Libc Double) (ops : DoubleOps Double) (scaled : ℕ → ℕ → ℕ)
    (conf : MainConf) (p : Process) where
  collect_history-generation :
      (sh : ShCtx Double) → (collect_history ops scaled conf p sh).generation ≡ sh.generation
  unfolding collect_history average push_sample keep_totals
  collect_history-generation sh = elim (Bool-cases (is_early ops scaled conf p sh)) [
    | inl b ↦ rw (b) refl
    | inr b ↦ rw (b) refl
  ]

  leave-sse_clients :
      (sh : ShCtx Double)
      → (leave libc ops scaled conf p sh).connections.sse_clients ≡ sh.connections.sse_clients
  unfolding leave collect_history average push_sample keep_totals
  leave-sse_clients sh = elim (Bool-cases (is_early ops scaled conf p sh)) [
    | inl b ↦ rw (b) refl
    | inr b ↦ rw (b) refl
  ]

  leave-generation :
      (sh : ShCtx Double) → (leave libc ops scaled conf p sh).generation ≡ add_word sh.generation 1
  unfolding leave
  leave-generation sh = ap (λ x. add_word x 1) (collect_history-generation sh)

  leave-lock : (sh : ShCtx Double) → (leave libc ops scaled conf p sh).collector_lock ≡ 0
  unfolding leave
  leave-lock sh = refl

  enter-generation :
      (sh : ShCtx Double) → (enter libc ops scaled conf p sh).1.generation ≡ sh.generation
  unfolding enter
  enter-generation sh = elim (Bool-cases (sh.collector_lock == 0)) [
    | inl b ↦ rw (b) refl
    | inr b ↦ rw (b) refl
  ]

  -- What a collection by `ran` does, if it reads these texts: the lock is free again, the generation
  -- is one more, the tables that the configuration asks for are refreshed, and the history gets its
  -- sample from a measured zone `m` with the system metrics and the tables of `ran`, and with the
  -- requests and the former totals of `sh`.
  abbrev pub Collects :
      HistorySample Double → List ℕ → List ℕ → List (List ℕ) → ShCtx Double → ShCtx Double → Type 0
  Collects z net disks mounts sh ran =
      (ran.collector_lock ≡ 0)
      × (ran.generation ≡ add_word sh.generation 1)
      × (tables_of ran ≡ refreshed libc conf net disks mounts (tables_of sh))
      × (m : ShCtx Double) × ((tables_of m ≡ tables_of ran)
          × (m.system ≡ ran.system)
          × (former m ≡ former sh)
          × Samples z libc ops scaled conf p sh m ran)

  module _ (z : HistorySample Double) (net disks : List ℕ) (mounts : List (List ℕ))
      (e1 : read_text libc (codes "/proc/net/dev") 32768 ≡ some net)
      (e2 : read_text libc (codes "/proc/diskstats") 65536 ≡ some disks)
      (e3 : libc.file_lines (codes "/proc/mounts") 4096 ≡ some mounts) (sh : ShCtx Double)
      (ring : IsRing sh) (bound : sh.history_write + 1 < 2 ^ 63) where
    -- The collection of a worker that has got the lock in `sh'`.
    inside-Collects :
        (sh' : ShCtx Double)
        → sh'.generation ≡ sh.generation
        → KeepsStored sh sh'
        → Collects z net disks mounts sh
            (leave libc ops scaled conf p (gather libc ops scaled conf p sh'))
    inside-Collects sh' g (t, f) =
        let m = gather libc ops scaled conf p sh' in
        let f' = gather-former libc ops scaled conf p net disks mounts e1 e2 e3 sh' ∙ f in
        let left = leave-tables_of libc ops scaled conf p m in
        (
          leave-lock m,
          leave-generation m
              ∙ ap (λ x. add_word x 1) ((gather-KeepsLock libc ops scaled conf p sh').1 ∙ g),
          left
              ∙ gather-tables_of libc ops scaled conf p net disks mounts e1 e2 e3 sh'
              ∙ ap (refreshed libc conf net disks mounts) t,
          m,
          (
            sym left,
            sym (leave-system libc ops scaled conf p m),
            f',
            leave-Samples z libc ops scaled conf p sh m f' ring bound,
          ),
        )

    ran-cases :
        (e : Bool × ShCtx Double)
        → e.1.generation ≡ sh.generation
        → KeepsStored sh e.1
        → ((sh.collector_lock ≡ 0) × (e.0 ≡ true) × (e.1.collector_lock ≡ p.pid))
          ⊎ ((sh.collector_lock ≢ 0) × (e.0 ≡ false) × Keeps sh e.1)
        → ((sh.collector_lock ≡ 0)
            × Collects z net disks mounts sh (if_entered libc ops scaled conf p e))
          ⊎ ((sh.collector_lock ≢ 0) × Keeps sh (if_entered libc ops scaled conf p e))
    ran-cases (true, sh') g k (inl (f, t, l)) = inl (f, inside-Collects sh' g k)
    ran-cases (true, sh') g k (inr (f, t, l)) = cc
    ran-cases (false, sh') g k (inl (f, t, l)) = cc
    ran-cases (false, sh') g k (inr (f, t, l)) = inr (f, l)

    -- One run of the timer's handler, with the files of the tables there, a well formed ring and
    -- fewer than 2^63 - 1 samples written. The timer is set again with the refresh interval exactly
    -- if the process is not exiting and its collector is active, which it stays. With the lock free,
    -- the worker collects: the lock is free again and the generation is one more; each table that the
    -- configuration asks for has what the accepted lines of its file give, and the others are as they
    -- were; and unless `resolution` milliseconds have not gone by since the last sample, in which case
    -- a reader gets the same samples, a new sample comes behind the ones that were kept, less the
    -- oldest one if the ring was full. It is computed from the system metrics and tables that the run
    -- leaves, and from the requests, averages and former totals before it. With the lock taken, the
    -- lock, the generation and all that collections write but the count of the samples are as they
    -- were.
    pub collect-cases :
        (exiting : Bool) (c : Collector)
        → (ran : ShCtx Double) × (collect libc ops scaled conf p exiting c (some sh) ≡ (
          record {
            active = c.active;
            timer = if not exiting && c.active then some conf.refresh_interval else none;
          },
          some ran,
        ))
          × (((sh.collector_lock ≡ 0) × Collects z net disks mounts sh ran)
              ⊎ ((sh.collector_lock ≢ 0) × Keeps sh ran))
    unfolding collect
    collect-cases exiting c =
        let e = enter libc ops scaled conf p sh in
        (
          if_entered libc ops scaled conf p e,
          refl,
          ran-cases e (enter-generation sh) (enter-KeepsStored libc ops scaled conf p sh)
              (enter-cases libc ops scaled conf p sh),
        )

  if_entered-sse_clients :
      (e : Bool × ShCtx Double)
      → (if_entered libc ops scaled conf p e).connections.sse_clients ≡ e.1.connections.sse_clients
  if_entered-sse_clients (true, sh) =
      leave-sse_clients _ ∙ (gather-KeepsLock libc ops scaled conf p sh).2
  if_entered-sse_clients (false, sh) = refl

  enter-sse_clients :
      (sh : ShCtx Double)
      → (enter libc ops scaled conf p sh).1.connections.sse_clients ≡ sh.connections.sse_clients
  unfolding enter
  enter-sse_clients sh = elim (Bool-cases (sh.collector_lock == 0)) [
    | inl b ↦ rw (b) refl
    | inr b ↦ rw (b) refl
  ]

  pub collected-sse_clients :
      (sh : ShCtx Double)
      → (if_entered libc ops scaled conf p
          (enter libc ops scaled conf p sh)).connections.sse_clients
        ≡ sh.connections.sse_clients
  collected-sse_clients sh = if_entered-sse_clients _ ∙ enter-sse_clients sh
