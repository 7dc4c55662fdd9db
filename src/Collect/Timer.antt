-- ===== src/Collect/Timer.antt =====
-- The timer of the collectors: `ngx_http_monitoring_init_collector` and
-- `ngx_http_monitoring_collect` (src/ngx_http_monitoring_collectors.c), and
-- `ngx_http_monitoring_init_process` and `ngx_http_monitoring_exit_process`
-- (src/ngx_http_monitoring_module.c).
pub mod Kept
pub mod Views
pub mod Gathers
pub mod Sampled
pub mod Run
pub mod Lock
pub mod Exclusive
use ngx_http_monitoring_modu.Prelude.{
  ℕ, ◌+◌, ◌*◌, ◌%◌, ◌&&◌, not, Bool, true, false, Option, none, some, List, ℤ, pos, negsuc, get_or,
  set, add_word, ◌==◌, if◌then◌else◌,
}
use ngx_http_monitoring_modu.State.{ShCtx, WorkerMetric, workers_max}
use ngx_http_monitoring_modu.State.Zero.{zero_worker_metric}
use ngx_http_monitoring_modu.Http.{MainConf, Process}
use ngx_http_monitoring_modu.History.{DoubleOps, collect_history}
use ngx_http_monitoring_modu.Collect.Libc.{Libc}
use ngx_http_monitoring_modu.Collect.System.{
  collect_cpu, collect_load, collect_meminfo, collect_uptime, collect_processes,
  collect_self_status, collect_tcp, collect_sockstat, collect_nginx,
}
use ngx_http_monitoring_modu.Collect.Tables.{
  collect_network, collect_diskstats, collect_filesystems,
}

-- `collector_active` and the timer of `collector_event`, with its delay.
pub record Collector : Type 0 where
  pub active : Bool
  pub timer : Option ℕ

-- The process writes itself into its slot of the workers.
unfoldable pub mark_worker : Process → List WorkerMetric → List WorkerMetric
mark_worker p workers = elim p.slot [
  | negsuc n ↦ workers
  | pos n ↦
      set workers (n % workers_max) (record (get_or workers (n % workers_max) zero_worker_metric) {
        pid = p.pid;
        active = 1;
        last_seen = p.sec;
      })
]

unfoldable pub unmark_worker : Process → List WorkerMetric → List WorkerMetric
unmark_worker p workers = elim p.slot [
  | negsuc n ↦ workers
  | pos n ↦
      set workers (n % workers_max) (record (get_or workers (n % workers_max) zero_worker_metric) {
        active = 0;
        last_seen = p.sec;
      })
]

-- The workers start at different times.
abbrev pub first_delay : ℤ → ℕ
first_delay (negsuc n) = 50
first_delay (pos n) = 50 + n % 16 * 25

module _ {Double : Type 0} (p : Process) where
  -- `is_worker` is `ngx_process == NGX_PROCESS_WORKER`; no collector or no zone is a NULL. The result
  -- is NGX_OK in each case.
  unfoldable pub init_collector :
      Bool → Option Collector → Option (ShCtx Double) → Option Collector × Option (ShCtx Double)
  unfolding mark_worker
  init_collector false c sh = (c, sh)
  init_collector true none sh = (none, sh)
  init_collector true (some c) none = (some c, none)
  init_collector true (some c) (some sh) = (
    some (record { active = true; timer = some (first_delay p.slot) }),
    some (record sh { workers = mark_worker p sh.workers }),
  )

  unfoldable pub init_process :
      Bool → Option Collector → Option (ShCtx Double) → Option Collector × Option (ShCtx Double)
  unfolding init_collector
  init_process is_worker c sh = init_collector is_worker c sh

  unfoldable pub exit_process :
      Option Collector → Option (ShCtx Double) → Option Collector × Option (ShCtx Double)
  unfolding unmark_worker
  exit_process none sh = (none, sh)
  exit_process (some c) none = (some (record { active = false; timer = none }), none)
  exit_process (some c) (some sh) = (
    some (record { active = false; timer = none }),
    some (record sh { workers = unmark_worker p sh.workers }),
  )

module _ {Double : Type 0} (libc : Libc Double) (ops : DoubleOps Double) (scaled : ℕ → ℕ → ℕ)
    (conf : MainConf) (p : Process) where
  -- What each worker does: its own slot, and the attempt to take the lock. The Boolean is whether it
  -- has got the lock.
  unfoldable pub enter : ShCtx Double → Bool × ShCtx Double
  unfolding mark_worker collect_self_status
  enter sh =
      let seen = record sh {
        workers = collect_self_status libc p.slot (mark_worker p sh.workers);
      } in
      if seen.collector_lock == 0
      then (true, record seen { collector_lock = p.pid })
      else (false, seen)

  unfoldable pub gather_system : ShCtx Double → ShCtx Double
  unfolding collect_cpu collect_load collect_meminfo collect_uptime collect_processes collect_tcp
      collect_sockstat collect_diskstats collect_filesystems
  gather_system sh =
      let m = collect_meminfo libc (collect_load libc ops (collect_cpu libc sh)) in
      let t = collect_tcp libc (collect_processes libc (collect_uptime libc m)) in
      collect_filesystems libc (collect_diskstats libc (collect_sockstat libc t))

  -- What the configuration asks for.
  unfoldable pub gather : ShCtx Double → ShCtx Double
  unfolding collect_nginx gather_system collect_network
  gather sh =
      let a = if conf.collect_nginx then collect_nginx libc sh else sh in
      let b = if conf.collect_system then gather_system a else a in
      if conf.collect_network then collect_network libc b else b

  -- The sample, and the end of the collection.
  unfoldable pub leave : ShCtx Double → ShCtx Double
  unfolding collect_history
  leave sh =
      let sampled = collect_history ops scaled conf p sh in
      record sampled { generation = add_word sampled.generation 1; collector_lock = 0 }

  abbrev pub if_entered : Bool × ShCtx Double → ShCtx Double
  if_entered (true, sh) = leave (gather sh)
  if_entered (false, sh) = sh

  -- The timer is set again unless the process is exiting. Without a configuration or a zone nothing
  -- happens, and the timer has run out.
  unfoldable pub collect :
      Bool → Collector → Option (ShCtx Double) → Collector × Option (ShCtx Double)
  unfolding enter gather leave
  collect exiting c none = (record c { timer = none }, none)
  collect exiting c (some sh) = (
    record c { timer = if not exiting && c.active then some conf.refresh_interval else none },
    some (if_entered (enter sh)),
  )
