-- ===== src/Collect/Tables/Laws.antt =====
-- What the collectors of tables leave in the zone (src/ngx_http_monitoring_collectors.c).
use ngx_http_monitoring_modu.Prelude.{ℕ, ◌≡◌, ap, List, some, take, length, min, codes}
use ngx_http_monitoring_modu.State.{ShCtx, ifaces_max, disks_max, filesystems_max}
use ngx_http_monitoring_modu.State.Zero.{zero_iface_metric, zero_disk_metric, zero_fs_metric}
use ngx_http_monitoring_modu.Collect.Libc.{Libc, lines_of, read_text}
use ngx_http_monitoring_modu.Collect.Tables.{
  iface_line, iface_table, add_flags, collect_network, disk_line, disk_table, collect_diskstats,
  fs_line, collect_filesystems,
}
use ngx_http_monitoring_modu.Collect.Tables.Fill.{
  accepted, apply_at, fill_each-accepted, fill_until-accepted,
}

-- The table `es` with the first `limit` updates in its first slots, and how many they are.
abbrev pub table : {E : Type 0} → ℕ → List (E → E) → List E → ℕ × List E
table limit us es = (min limit (length us), apply_at 0 (take limit us) es)

module _ {Double : Type 0} (libc : Libc Double) (sh : ShCtx Double) where
  -- With the files there, each of the three tables gets what the accepted lines give, in their order
  -- and in its first slots, as many as there is room for; the count is their number, the slots behind
  -- keep what they had, and only this table and its count change. The interfaces then get the flags.
  pub collect_tables :
      (net disks : List ℕ) (mounts : List (List ℕ))
      → read_text libc (codes "/proc/net/dev") 32768 ≡ some net
      → read_text libc (codes "/proc/diskstats") 65536 ≡ some disks
      → libc.file_lines (codes "/proc/mounts") 4096 ≡ some mounts
      → (collect_network libc sh ≡ (
          let s = table ifaces_max (accepted (iface_line libc) (lines_of net)) sh.ifaces in
          record sh { ifaces = add_flags libc s; iface_count = s.0 }))
        × (collect_diskstats libc sh ≡ (
            let s = table disks_max (accepted (disk_line libc) (lines_of disks)) sh.disks in
            record sh { disks = s.1; disk_count = s.0 }))
        × (collect_filesystems libc sh ≡ (
            let s = table filesystems_max (accepted (fs_line libc) mounts) sh.filesystems in
            record sh { filesystems = s.1; fs_count = s.0 }))
  unfolding collect_network iface_table collect_diskstats disk_table collect_filesystems
  collect_tables net disks mounts e1 e2 e3 = (
    rw (e1) (
        ap (λ s. record sh { ifaces = add_flags libc s; iface_count = s.0 })
          (fill_each-accepted ifaces_max zero_iface_metric (iface_line libc) sh.ifaces
            (lines_of net))),
    rw (e2) (
        ap (λ s. record sh { disks = s.1; disk_count = s.0 })
          (fill_until-accepted disks_max zero_disk_metric (disk_line libc) sh.disks
            (lines_of disks))),
    rw (e3, collect_filesystems)
        (ap (λ s. record sh { filesystems = s.1; fs_count = s.0 })
          (fill_until-accepted filesystems_max zero_fs_metric (fs_line libc) sh.filesystems
            mounts)),
  )
