-- ===== src/Collect/Tables.antt =====
-- The collectors of tables: `ngx_http_monitoring_collect_network`, `_diskstats` and `_filesystems`
-- (src/ngx_http_monitoring_collectors.c).
pub mod Fill
pub mod Laws
use ngx_http_monitoring_modu.Prelude.{
  ℕ, zero, suc, ◌+◌, List, [], ◌∷◌, Bool, ◌||◌, Option, none, some, codes, get_or, set, strncmp_eq,
  sub_word, mul_word, ltb, ◌==◌, if◌then◌else◌,
}
use ngx_http_monitoring_modu.State.{
  ShCtx, IfaceMetric, DiskMetric, FsMetric, ifaces_max, disks_max, filesystems_max, name_len,
}
use ngx_http_monitoring_modu.State.Zero.{zero_iface_metric, zero_disk_metric, zero_fs_metric}
use ngx_http_monitoring_modu.Slots.Key.{key_len}
use ngx_http_monitoring_modu.Collect.Libc.{Libc, DiskScan, StatVfs, lines_of, read_text}
use ngx_http_monitoring_modu.Collect.Mounts.{mount_entry}

module _ {E : Type 0} (limit : ℕ) (d : E) (parse : List ℕ → Option (E → E)) where
  -- The body of a loop over lines: what a line gives is written to the next slot, if there is one.
  unfoldable pub fill_step : ℕ × List E → List ℕ → ℕ × List E
  fill_step s line =
      if ltb s.0 limit
      then elim (parse line) [ none ↦ s | some u ↦ (s.0 + 1, set s.1 s.0 (u (get_or s.1 s.0 d))) ]
      else s

  -- A loop that goes on over the lines behind a full table.
  abbrev pub fill_each : ℕ × List E → List (List ℕ) → ℕ × List E
  fill_each s [] = s
  fill_each s (line ∷ lines) = fill_each (fill_step s line) lines

  -- A loop that a full table ends.
  abbrev pub fill_until : ℕ × List E → List (List ℕ) → ℕ × List E
  fill_until s [] = s
  fill_until s (line ∷ lines) =
      let rest = fill_until (fill_step s line) lines in if ltb s.0 limit then rest else s

-- `strchr(line, ':')`: what is before the colon and behind it.
abbrev pub split_at : ℕ → List ℕ → Option (List ℕ × List ℕ)
split_at k [] = none
split_at k (c ∷ text) =
    let rest = split_at k text in
    if c == k
    then some ([], text)
    else elim rest [ none ↦ none | some parts ↦ some (c ∷ parts.0, parts.1) ]

abbrev pub skip_spaces : List ℕ → List ℕ
skip_spaces [] = []
skip_spaces (c ∷ text) = if c == 32 then skip_spaces text else c ∷ text

-- The flags of the first of the `count` interfaces with the name.
abbrev pub set_flags : ℕ → List ℕ → ℕ → List IfaceMetric → List IfaceMetric
set_flags zero name flags ifaces = ifaces
set_flags (suc count) name flags [] = []
set_flags (suc count) name flags (i ∷ ifaces) =
    if strncmp_eq i.name name name_len
    then record i { flags = flags } ∷ ifaces
    else i ∷ set_flags count name flags ifaces

-- The loop over the list of `getifaddrs`.
abbrev pub each_flags : ℕ → List (Option (List ℕ) × ℕ) → List IfaceMetric → List IfaceMetric
each_flags count [] ifaces = ifaces
each_flags count ((none, flags) ∷ addrs) ifaces = each_flags count addrs ifaces
each_flags count ((some name, flags) ∷ addrs) ifaces =
    each_flags count addrs (set_flags count name flags ifaces)

module _ {Double : Type 0} (libc : Libc Double) where
  -- Six numbers, or nothing.
  abbrev pub iface_numbers : List ℕ → List ℕ → Option (IfaceMetric → IfaceMetric)
  iface_numbers name (rx ∷ rx_packets ∷ rx_errs ∷ tx ∷ tx_packets ∷ tx_errs ∷ []) = some (λ i.
      record {
        name = libc.cpystrn i.name name name_len;
        rx_bytes = rx;
        tx_bytes = tx;
        rx_packets = rx_packets;
        tx_packets = tx_packets;
        rx_errors = rx_errs;
        tx_errors = tx_errs;
        flags = 0;
      })
  iface_numbers name numbers = none

  unfoldable pub iface_line : List ℕ → Option (IfaceMetric → IfaceMetric)
  iface_line line = elim (split_at 58 line) [
    | none ↦ none
    | some parts ↦ elim (libc.scan_name (skip_spaces parts.0)) [
      | none ↦ none
      | some name ↦
          iface_numbers name
            (libc.scan parts.1 (codes "%llu %llu %llu %*u %*u %*u %*u %*u %llu %llu %llu"))
    ]
  ]

  unfoldable pub iface_table : List ℕ → List IfaceMetric → ℕ × List IfaceMetric
  unfolding lines_of fill_step iface_line
  iface_table text ifaces =
      fill_each ifaces_max zero_iface_metric iface_line (0, ifaces) (lines_of text)

  -- The flags, if `getifaddrs` gives them.
  unfoldable pub add_flags : ℕ × List IfaceMetric → List IfaceMetric
  add_flags s = elim libc.ifaddrs [ none ↦ s.1 | some addrs ↦ each_flags s.0 addrs s.1 ]

  unfoldable pub collect_network : ShCtx Double → ShCtx Double
  unfolding read_text iface_table add_flags
  collect_network sh = elim (read_text libc (codes "/proc/net/dev") 32768) [
    | none ↦ sh
    | some text ↦
        let s = iface_table text sh.ifaces in record sh { ifaces = add_flags s; iface_count = s.0 }
  ]

  unfoldable pub disk_line : List ℕ → Option (DiskMetric → DiskMetric)
  disk_line line = elim (libc.scan_disk line) [
    | none ↦ none
    | some s ↦
        if strncmp_eq s.name (codes "loop") 4 || strncmp_eq s.name (codes "ram") 3
        then none
        else some (λ d. record {
          name = libc.cpystrn d.name s.name name_len;
          reads = s.reads;
          writes = s.writes;
          read_bytes = mul_word s.sectors_read 512;
          write_bytes = mul_word s.sectors_written 512;
          io_ms = s.io_ms;
        })
  ]

  unfoldable pub disk_table : List ℕ → List DiskMetric → ℕ × List DiskMetric
  unfolding lines_of fill_step disk_line
  disk_table text disks = fill_until disks_max zero_disk_metric disk_line (0, disks) (lines_of text)

  unfoldable pub collect_diskstats : ShCtx Double → ShCtx Double
  unfolding read_text disk_table
  collect_diskstats sh = elim (read_text libc (codes "/proc/diskstats") 65536) [
    | none ↦ sh
    | some text ↦ let s = disk_table text sh.disks in record sh { disks = s.1; disk_count = s.0 }
  ]

  -- `used` wraps around if more blocks are free than there are.
  abbrev pub fs_numbers : List ℕ → List ℕ → StatVfs → FsMetric → FsMetric
  fs_numbers path type st f =
      let total = mul_word st.blocks st.frsize in
      let free_bytes = mul_word st.bfree st.frsize in
      record {
        path = libc.cpystrn f.path path key_len;
        type = libc.cpystrn f.type type name_len;
        total = total;
        used = sub_word total free_bytes;
        free = free_bytes;
        avail = mul_word st.bavail st.frsize;
        files = st.files;
        files_free = st.ffree;
      }

  unfoldable pub fs_line : List ℕ → Option (FsMetric → FsMetric)
  unfolding mount_entry
  fs_line line = elim (mount_entry line) [
    | none ↦ none
    | some (path, type) ↦ elim (libc.statvfs path) [
      | none ↦ none
      | some st ↦ if st.blocks == 0 then none else some (fs_numbers path type st)
    ]
  ]

  unfoldable pub collect_filesystems : ShCtx Double → ShCtx Double
  unfolding fill_step fs_line
  collect_filesystems sh = elim (libc.file_lines (codes "/proc/mounts") 4096) [
    | none ↦ sh
    | some lines ↦
        let s = fill_until filesystems_max zero_fs_metric fs_line (0, sh.filesystems) lines in
        record sh { filesystems = s.1; fs_count = s.0 }
  ]
