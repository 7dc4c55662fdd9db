-- ===== src/Collect/Timer/Kept.antt =====
-- What the operations leave alone: the lock of the collectors, and what is written with it
-- (src/ngx_http_monitoring_collectors.c).
use ngx_http_monitoring_modu.Prelude.{
  ℕ, ◌≡◌, ◌≢◌, refl, ◌∙◌, arith, List, true, false, Bool-cases, ◌⊎◌, inl, inr, ◌==◌, if◌then◌else◌,
}
use ngx_http_monitoring_modu.State.{ShCtx}
use ngx_http_monitoring_modu.Http.{MainConf, Process, Request}
use ngx_http_monitoring_modu.Metrics.Methods.{MethodBits}
use ngx_http_monitoring_modu.Account.{account, account_upstream, update_tops}
use ngx_http_monitoring_modu.RateLimit.{open_window, reset_window, count_against}
use ngx_http_monitoring_modu.History.{DoubleOps, resize}
use ngx_http_monitoring_modu.Collect.Libc.{Libc}
use ngx_http_monitoring_modu.Collect.System.{
  cpu_step, collect_cpu, collect_load, collect_meminfo, collect_uptime, collect_processes,
  collect_tcp, collect_sockstat, collect_nginx,
}
use ngx_http_monitoring_modu.Collect.Tables.{
  collect_network, collect_diskstats, collect_filesystems,
}
use ngx_http_monitoring_modu.Collect.Timer.Views.{collected}
use ngx_http_monitoring_modu.Collect.Timer.{enter, gather, gather_system}

-- The lock, the generation and all that collections write stay.
abbrev pub Keeps : {Double : Type 0} → ShCtx Double → ShCtx Double → Type 0
Keeps {Double} sh sh' =
    (sh'.collector_lock ≡ sh.collector_lock)
    × (sh'.generation ≡ sh.generation)
    × (collected sh' ≡ collected sh)

module _ {Double : Type 0} where
  pub account-Keeps :
      (crc32 : List ℕ → ℕ) (bits : MethodBits) (p : Process) (conf : MainConf) (r : Request)
      (sh : ShCtx Double)
      → Keeps sh (account crc32 bits p conf r sh)
  unfolding account account_upstream update_tops
  account-Keeps crc32 bits p conf r sh = elim (Bool-cases conf.shpool) [
    | inl b ↦ rw (b) (refl, refl, refl)
    | inr b ↦ rw (b) (refl, refl, refl)
  ]

  pub limits-Keeps :
      (now rate_limit : ℕ) (sh : ShCtx Double)
      → Keeps sh (count_against rate_limit (open_window now sh)).1
  unfolding count_against open_window reset_window
  limits-Keeps now rate_limit sh = ground arith

  pub resize-Keeps : (conf : MainConf) (sh : ShCtx Double) → Keeps sh (resize conf sh)
  unfolding resize
  resize-Keeps conf sh = (refl, refl, refl)

-- What the collectors leave alone.
abbrev pub KeepsLock : {Double : Type 0} → ShCtx Double → ShCtx Double → Type 0
KeepsLock {Double} sh sh' =
    (sh'.collector_lock ≡ sh.collector_lock)
    × (sh'.generation ≡ sh.generation)
    × (sh'.connections.sse_clients ≡ sh.connections.sse_clients)

KeepsLock-trans :
    {Double : Type 0} (a b c : ShCtx Double) → KeepsLock a b → KeepsLock b c → KeepsLock a c
KeepsLock-trans a b c (l, g, n) (l', g', n') = (l' ∙ l, g' ∙ g, n' ∙ n)

module _ {Double : Type 0} (libc : Libc Double) (ops : DoubleOps Double) where
  collect_cpu-KeepsLock : (sh : ShCtx Double) → KeepsLock sh (collect_cpu libc sh)
  unfolding collect_cpu cpu_step
  collect_cpu-KeepsLock sh = ground arith

  collect_load-KeepsLock : (sh : ShCtx Double) → KeepsLock sh (collect_load libc ops sh)
  unfolding collect_load
  collect_load-KeepsLock sh = ground arith

  collect_meminfo-KeepsLock : (sh : ShCtx Double) → KeepsLock sh (collect_meminfo libc sh)
  unfolding collect_meminfo
  collect_meminfo-KeepsLock sh = ground arith

  collect_uptime-KeepsLock : (sh : ShCtx Double) → KeepsLock sh (collect_uptime libc sh)
  unfolding collect_uptime
  collect_uptime-KeepsLock sh = ground arith

  collect_processes-KeepsLock : (sh : ShCtx Double) → KeepsLock sh (collect_processes libc sh)
  unfolding collect_processes
  collect_processes-KeepsLock sh = ground arith

  collect_tcp-KeepsLock : (sh : ShCtx Double) → KeepsLock sh (collect_tcp libc sh)
  unfolding collect_tcp
  collect_tcp-KeepsLock sh = ground arith

  collect_sockstat-KeepsLock : (sh : ShCtx Double) → KeepsLock sh (collect_sockstat libc sh)
  unfolding collect_sockstat
  collect_sockstat-KeepsLock sh = ground arith

  collect_diskstats-KeepsLock : (sh : ShCtx Double) → KeepsLock sh (collect_diskstats libc sh)
  unfolding collect_diskstats
  collect_diskstats-KeepsLock sh = ground arith

  collect_filesystems-KeepsLock : (sh : ShCtx Double) → KeepsLock sh (collect_filesystems libc sh)
  unfolding collect_filesystems
  collect_filesystems-KeepsLock sh = ground arith

  collect_network-KeepsLock : (sh : ShCtx Double) → KeepsLock sh (collect_network libc sh)
  unfolding collect_network
  collect_network-KeepsLock sh = ground arith

  collect_nginx-KeepsLock : (sh : ShCtx Double) → KeepsLock sh (collect_nginx libc sh)
  unfolding collect_nginx
  collect_nginx-KeepsLock sh = ground arith

  module _ (scaled : ℕ → ℕ → ℕ) (conf : MainConf) (p : Process) where
    gather_system-KeepsLock :
        (sh : ShCtx Double) → KeepsLock sh (gather_system libc ops scaled conf p sh)
    unfolding gather_system
    gather_system-KeepsLock sh =
        let c = collect_cpu libc sh in
        let l = collect_load libc ops c in
        let m = collect_meminfo libc l in
        let u = collect_uptime libc m in
        let n = collect_processes libc u in
        let t = collect_tcp libc n in
        let s = collect_sockstat libc t in
        let d = collect_diskstats libc s in
        let f = collect_filesystems libc d in
        KeepsLock-trans sh c f (collect_cpu-KeepsLock sh) (
          KeepsLock-trans c l f (collect_load-KeepsLock c) (
            KeepsLock-trans l m f (collect_meminfo-KeepsLock l) (
              KeepsLock-trans m u f (collect_uptime-KeepsLock m) (
                KeepsLock-trans u n f (collect_processes-KeepsLock u) (
                  KeepsLock-trans n t f (collect_tcp-KeepsLock n) (
                    KeepsLock-trans t s f (collect_sockstat-KeepsLock t) (
                      KeepsLock-trans s d f (collect_diskstats-KeepsLock s)
                        (collect_filesystems-KeepsLock d))))))))

    pub gather-KeepsLock : (sh : ShCtx Double) → KeepsLock sh (gather libc ops scaled conf p sh)
    unfolding gather
    gather-KeepsLock sh =
        let a = if conf.collect_nginx then collect_nginx libc sh else sh in
        let b = if conf.collect_system then gather_system libc ops scaled conf p a else a in
        ground (
          arith,
          collect_nginx-KeepsLock sh,
          gather_system-KeepsLock a,
          collect_network-KeepsLock b,
        )

    -- The lock is free and taken, or it is not, and then only the worker's slot is written.
    pub enter-cases :
        (sh : ShCtx Double)
        → ((sh.collector_lock ≡ 0)
            × ((enter libc ops scaled conf p sh).0 ≡ true)
            × ((enter libc ops scaled conf p sh).1.collector_lock ≡ p.pid))
          ⊎ ((sh.collector_lock ≢ 0)
              × ((enter libc ops scaled conf p sh).0 ≡ false)
              × Keeps sh (enter libc ops scaled conf p sh).1)
    unfolding enter
    enter-cases sh = elim (Bool-cases (sh.collector_lock == 0)) [
      | inl b ↦ inl (ground arith, rw (b) refl, rw (b) refl)
      | inr b ↦ inr (ground arith, rw (b) refl, rw (b) (refl, refl, refl))
    ]
