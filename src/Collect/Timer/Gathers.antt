-- ===== src/Collect/Timer/Gathers.antt =====
-- The tables after a collection (src/ngx_http_monitoring_collectors.c).
use ngx_http_monitoring_modu.Prelude.{
  ℕ, ◌≡◌, refl, ap, ◌∙◌, Bool, true, false, Bool-cases, inl, inr, List, some, codes, if◌then◌else◌,
  ◌==◌,
}
use ngx_http_monitoring_modu.State.{ShCtx}
use ngx_http_monitoring_modu.Http.{MainConf, Process}
use ngx_http_monitoring_modu.History.{
  DoubleOps, collect_history, average, push_sample, keep_totals, is_early,
}
use ngx_http_monitoring_modu.Collect.Libc.{Libc, read_text}
use ngx_http_monitoring_modu.Collect.System.{
  collect_cpu, collect_load, collect_meminfo, collect_uptime, collect_processes, collect_tcp,
  collect_sockstat, collect_nginx,
}
use ngx_http_monitoring_modu.Collect.Tables.{collect_network, collect_diskstats}
use ngx_http_monitoring_modu.Collect.Tables.Laws.{collect_tables}
use ngx_http_monitoring_modu.Collect.Timer.{enter, leave, gather, gather_system}
use ngx_http_monitoring_modu.Collect.Timer.Views.{
  tables_of, former, with_network, with_mounts, with_system, refreshed, KeepsStored,
  KeepsStored-trans, collect_cpu-KeepsStored, collect_load-KeepsStored, collect_meminfo-KeepsStored,
  collect_uptime-KeepsStored, collect_processes-KeepsStored, collect_tcp-KeepsStored,
  collect_sockstat-KeepsStored, collect_nginx-KeepsStored,
}

module _ {Double : Type 0} (libc : Libc Double) (ops : DoubleOps Double) where
  module _ (scaled : ℕ → ℕ → ℕ) (conf : MainConf) (p : Process) where
    -- The collectors before the disks.
    abbrev numbers : ShCtx Double → ShCtx Double
    numbers sh =
        let m = collect_meminfo libc (collect_load libc ops (collect_cpu libc sh)) in
        collect_sockstat libc (collect_tcp libc (collect_processes libc (collect_uptime libc m)))

    numbers-KeepsStored : (sh : ShCtx Double) → KeepsStored sh (numbers sh)
    numbers-KeepsStored sh =
        let c = collect_cpu libc sh in
        let l = collect_load libc ops c in
        let m = collect_meminfo libc l in
        let u = collect_uptime libc m in
        let n = collect_processes libc u in
        let t = collect_tcp libc n in
        let s = collect_sockstat libc t in
        KeepsStored-trans sh c s (collect_cpu-KeepsStored libc ops sh) (
          KeepsStored-trans c l s (collect_load-KeepsStored libc ops c) (
            KeepsStored-trans l m s (collect_meminfo-KeepsStored libc ops l) (
              KeepsStored-trans m u s (collect_uptime-KeepsStored libc ops m) (
                KeepsStored-trans u n s (collect_processes-KeepsStored libc ops u) (
                  KeepsStored-trans n t s (collect_tcp-KeepsStored libc ops n)
                    (collect_sockstat-KeepsStored libc ops t))))))

    pub enter-KeepsStored : (sh : ShCtx Double) → KeepsStored sh (enter libc ops scaled conf p sh).1
    unfolding enter
    enter-KeepsStored sh = elim (Bool-cases (sh.collector_lock == 0)) [
      | inl b ↦ rw (b) (refl, refl)
      | inr b ↦ rw (b) (refl, refl)
    ]

    pub leave-tables_of :
        (sh : ShCtx Double) → tables_of (leave libc ops scaled conf p sh) ≡ tables_of sh
    unfolding leave collect_history average push_sample keep_totals
    leave-tables_of sh = elim (Bool-cases (is_early ops scaled conf p sh)) [
      | inl b ↦ rw (b) refl
      | inr b ↦ rw (b) refl
    ]

    pub leave-system : (sh : ShCtx Double) → (leave libc ops scaled conf p sh).system ≡ sh.system
    unfolding leave collect_history average push_sample keep_totals
    leave-system sh = elim (Bool-cases (is_early ops scaled conf p sh)) [
      | inl b ↦ rw (b) refl
      | inr b ↦ rw (b) refl
    ]

    -- What a step that the configuration may leave out does to the view of the zone.
    chosen :
        {V : Type 0} (view : ShCtx Double → V) (b : Bool) (f : ShCtx Double → ShCtx Double)
        (g : V → V) (sh : ShCtx Double) (v : V)
        → view (f sh) ≡ g (view sh)
        → view sh ≡ v
        → view (if b then f sh else sh) ≡ (if b then g v else v)
    chosen view true f g sh v h e = h ∙ ap g e
    chosen view false f g sh v h e = e

    kept : {V : Type 0} (b : Bool) (v : V) → (if b then v else v) ≡ v
    kept true v = refl
    kept false v = refl

    module _ (net disks : List ℕ) (mounts : List (List ℕ))
        (e1 : read_text libc (codes "/proc/net/dev") 32768 ≡ some net)
        (e2 : read_text libc (codes "/proc/diskstats") 65536 ≡ some disks)
        (e3 : libc.file_lines (codes "/proc/mounts") 4096 ≡ some mounts) where
      collect_network-tables_of :
          (sh : ShCtx Double)
          → tables_of (collect_network libc sh) ≡ with_network libc net (tables_of sh)
      collect_network-tables_of sh =
          ap tables_of (collect_tables libc sh net disks mounts e1 e2 e3).0

      collect_network-former : (sh : ShCtx Double) → former (collect_network libc sh) ≡ former sh
      collect_network-former sh = ap former (collect_tables libc sh net disks mounts e1 e2 e3).0

      gather_system-tables_of :
          (sh : ShCtx Double)
          → tables_of (gather_system libc ops scaled conf p sh)
            ≡ with_system libc disks mounts (tables_of sh)
      unfolding gather_system
      gather_system-tables_of sh =
          let n = numbers sh in
          let d = collect_diskstats libc n in
          ap tables_of (collect_tables libc d net disks mounts e1 e2 e3).2
          ∙ ap (with_mounts libc mounts)
              (ap tables_of (collect_tables libc n net disks mounts e1 e2 e3).1)
          ∙ ap (with_system libc disks mounts) (numbers-KeepsStored sh).0

      gather_system-former :
          (sh : ShCtx Double) → former (gather_system libc ops scaled conf p sh) ≡ former sh
      unfolding gather_system
      gather_system-former sh =
          let n = numbers sh in
          let d = collect_diskstats libc n in
          ap former (collect_tables libc d net disks mounts e1 e2 e3).2
          ∙ ap former (collect_tables libc n net disks mounts e1 e2 e3).1
          ∙ (numbers-KeepsStored sh).1

      pub gather-tables_of :
          (sh : ShCtx Double)
          → tables_of (gather libc ops scaled conf p sh)
            ≡ refreshed libc conf net disks mounts (tables_of sh)
      unfolding gather
      gather-tables_of sh =
          let a = if conf.collect_nginx then collect_nginx libc sh else sh in
          let b = if conf.collect_system then gather_system libc ops scaled conf p a else a in
          let s = with_system libc disks mounts in
          chosen tables_of conf.collect_network (collect_network libc) (with_network libc net) b _
            (collect_network-tables_of b)
            (chosen tables_of conf.collect_system (gather_system libc ops scaled conf p) s a _
              (gather_system-tables_of a)
              (chosen tables_of conf.collect_nginx (collect_nginx libc) (λ t. t) sh _
                  (collect_nginx-KeepsStored libc ops sh).0 refl
                ∙ kept conf.collect_nginx (tables_of sh)))

      pub gather-former :
          (sh : ShCtx Double) → former (gather libc ops scaled conf p sh) ≡ former sh
      unfolding gather
      gather-former sh =
          let a = if conf.collect_nginx then collect_nginx libc sh else sh in
          let b = if conf.collect_system then gather_system libc ops scaled conf p a else a in
          chosen former conf.collect_network (collect_network libc) (λ t. t) b _
            (collect_network-former b)
            (chosen former conf.collect_system (gather_system libc ops scaled conf p) (λ t. t) a _
                (gather_system-former a)
                (chosen former conf.collect_nginx (collect_nginx libc) (λ t. t) sh _
                    (collect_nginx-KeepsStored libc ops sh).1 refl
                  ∙ kept conf.collect_nginx (former sh))
              ∙ kept conf.collect_system (former sh))
          ∙ kept conf.collect_network (former sh)
