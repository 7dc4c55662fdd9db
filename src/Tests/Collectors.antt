-- ===== src/Tests/Collectors.antt =====
-- The collectors, and their lock, at concrete inputs.
use ngx_http_monitoring_modu.Prelude.{
  ℕ, ◌+◌, ◌-◌, ◌*◌, ◌/◌, ◌≤◌, ◌<◌, ◌≡◌, ◌≢◌, ◌⊎◌, refl, arith, Bool, true, false, ◌||◌, List, [],
  ◌∷◌, ◌++◌, none, some, codes, ◌==◌, not, ◌&&◌, if◌then◌else◌, here,
}
use ngx_http_monitoring_modu.State.{ShCtx, ifaces_max, disks_max, filesystems_max}
use ngx_http_monitoring_modu.Http.{Process}
use ngx_http_monitoring_modu.Collect.Libc.{Libc, lines_of, read_text, read_file}
use ngx_http_monitoring_modu.Collect.Mounts.{skip_fs, mount_entry}
use ngx_http_monitoring_modu.Collect.Mounts.Laws.{mangle, mount_entry-mangle}
use ngx_http_monitoring_modu.Collect.System.{cpu_usage}
use ngx_http_monitoring_modu.Collect.System.Usage.{cpu_usage-bounds}
use ngx_http_monitoring_modu.Collect.Tables.{
  iface_line, add_flags, collect_network, disk_line, collect_diskstats, fs_line,
  collect_filesystems,
}
use ngx_http_monitoring_modu.Collect.Tables.Fill.{accepted}
use ngx_http_monitoring_modu.Collect.Tables.Laws.{table, collect_tables}
use ngx_http_monitoring_modu.Collect.Timer.{Collector, enter, gather, leave, if_entered, collect}
use ngx_http_monitoring_modu.Collect.Timer.Kept.{Keeps}
use ngx_http_monitoring_modu.Collect.Timer.Run.{Collects, collect-cases}
use ngx_http_monitoring_modu.Collect.Timer.Lock.{
  Workers, entered, Reaches, stays, then_moves, begins,
}
use ngx_http_monitoring_modu.Collect.Timer.Exclusive.{
  IsExclusive, Reaches-IsExclusive, dies-IsStuck,
}
use ngx_http_monitoring_modu.Tests.{bits, first_byte, process, main_conf, zone}
use ngx_http_monitoring_modu.Tests.Ring.{ops, scaled, z, ring, ring-IsRing}

-- The bytes that Linux writes in octal.
abbrev esc : ℕ → Bool
esc c = c == 32 || c == 9 || c == 10 || c == 92

skip_fs-ext4 : skip_fs (codes "ext4") ≡ false
unfolding skip_fs
skip_fs-ext4 = refl

mount_entry-mangle_example :
    mount_entry (
      mangle esc (codes "/dev/sda1")
      ++ (32 ∷ (mangle esc (codes "/my disk") ++ (32 ∷ (mangle esc (codes "ext4") ++ (32 ∷ []))))))
    ≡ some (codes "/my disk", codes "ext4")
mount_entry-mangle_example =
    mount_entry-mangle esc (refl, refl, refl, refl) (codes "/dev/sda1") (codes "/my disk")
      (codes "ext4") [] (omega arith) (omega arith) (omega arith) (λ e. cc) (λ e. cc) (λ e. cc)
      (omega arith) (omega arith) skip_fs-ext4

mount_line : mount_entry (codes "a /my\\040disk ext4 rw") ≡ some (codes "/my disk", codes "ext4")
unfolding mount_entry
mount_line = refl

-- The idle time goes back from 800 to 790 while the total grows by 100.
cpu_usage-bounds_example :
    (cpu_usage 1000 800 1100 790 0 ≡ (100 + 800 - 790) * 100000 / 100)
    × (((800 ≤ 790) × (cpu_usage 1000 800 1100 790 0 ≤ 100000))
        ⊎ ((790 < 800) × (cpu_usage 1000 800 1100 790 0 ≡ 10 * 100000 / 100 + 100000)))
cpu_usage-bounds_example =
    cpu_usage-bounds 1000 800 1100 790 0 (omega arith) (omega arith) (omega arith) (omega arith)
      (omega arith) (omega arith) (omega arith)

-- One interface, two disks, one file system.
abbrev pub libc : Libc ℕ
libc = record {
  read_path = λ path n. some (codes "h\neth0: 1\n");
  file_lines = λ path n. some (codes "/dev/sda1 / ext4 rw\n" ∷ []);
  proc_names = none;
  scan = λ text format. 1 ∷ 2 ∷ 3 ∷ 4 ∷ 5 ∷ 6 ∷ [];
  scan_doubles = λ text format. [];
  scan_name = λ text. some text;
  scan_disk = λ text. some (record {
    name = codes "sda";
    reads = 1;
    sectors_read = 2;
    writes = 3;
    sectors_written = 4;
    io_ms = 5;
  });
  statvfs = λ path.
      some (record { blocks = 9; bfree = 5; bavail = 4; frsize = 512; files = 3; ffree = 2 });
  ifaddrs = none;
  stub_status = none;
  cpystrn = λ dst src n. src;
  to_word = λ d. d;
}

abbrev proc_text : List ℕ
proc_text = codes "h\neth0: 1\n"

proc_net_dev : read_text libc (codes "/proc/net/dev") 32768 ≡ some proc_text
unfolding read_text read_file
proc_net_dev = refl

proc_diskstats : read_text libc (codes "/proc/diskstats") 65536 ≡ some proc_text
unfolding read_text read_file
proc_diskstats = refl

abbrev mount_lines : List (List ℕ)
mount_lines = codes "/dev/sda1 / ext4 rw\n" ∷ []

collect_tables_example :
    (collect_network libc zone ≡ (
      let s = table ifaces_max (accepted (iface_line libc) (lines_of proc_text)) zone.ifaces in
      record zone { ifaces = add_flags libc s; iface_count = s.0 }))
    × (collect_diskstats libc zone ≡ (
        let s = table disks_max (accepted (disk_line libc) (lines_of proc_text)) zone.disks in
        record zone { disks = s.1; disk_count = s.0 }))
    × (collect_filesystems libc zone ≡ (
        let s = table filesystems_max (accepted (fs_line libc) mount_lines) zone.filesystems in
        record zone { filesystems = s.1; fs_count = s.0 }))
collect_tables_example =
    collect_tables libc zone proc_text proc_text mount_lines proc_net_dev proc_diskstats refl

one_iface : (collect_network libc zone).iface_count ≡ 1
unfolding collect_network
one_iface = refl

abbrev collector : Collector
collector = record { active = true; timer = none }

-- The zone after a run with the lock free.
abbrev ran : ShCtx ℕ
ran = if_entered libc ops scaled main_conf process (enter libc ops scaled main_conf process ring)

collect-cases_example :
    (after : ShCtx ℕ) × (collect libc ops scaled main_conf process false collector (some ring) ≡ (
      record {
        active = true;
        timer = if not false && true then some main_conf.refresh_interval else none;
      },
      some after,
    ))
    × (((ring.collector_lock ≡ 0)
          × Collects libc ops scaled main_conf process z proc_text proc_text mount_lines ring after)
        ⊎ ((ring.collector_lock ≢ 0) × Keeps ring after))
collect-cases_example =
    collect-cases libc ops scaled main_conf process z proc_text proc_text mount_lines proc_net_dev
      proc_diskstats refl ring ring-IsRing (omega arith) false collector

-- The run fills the tables and adds a sample.
ran_counts :
    (ran.iface_count ≡ 1) × (ran.disk_count ≡ 2) × (ran.fs_count ≡ 1) × (ran.history_count ≡ 1)
unfolding enter gather leave
ran_counts = (refl, refl, refl, refl)

abbrev other_process : Process
other_process = record process { pid = 8 }

-- The zone while the process holds the lock.
abbrev locked : ShCtx ℕ
locked = (enter libc ops scaled main_conf process zone).1

abbrev IsReached : Workers ℕ → Workers ℕ → Type 0
IsReached = Reaches libc ops scaled first_byte bits

one_inside :
    IsReached
      (record { shared = zone; inside = [] })
      (record { shared = locked; inside = process ∷ [] })
unfolding enter
one_inside = then_moves stays (begins main_conf process (omega arith) refl)

Reaches-IsExclusive_example : IsExclusive (record { shared = locked; inside = process ∷ [] })
Reaches-IsExclusive_example =
    Reaches-IsExclusive libc ops scaled first_byte bits zone
      (record { shared = locked; inside = process ∷ [] }) one_inside

-- What the other process finds after the death of the first.
abbrev left : Workers ℕ
left = entered other_process [] (enter libc ops scaled main_conf other_process locked)

other_begins : IsReached (record { shared = locked; inside = [] }) left
other_begins = then_moves stays (begins main_conf other_process (omega arith) refl)

dies-IsStuck_example :
    (left.inside ≡ []) × (locked.collector_lock ≡ process.pid) × Keeps locked left.shared
dies-IsStuck_example =
    dies-IsStuck libc ops scaled first_byte bits zone locked process (process ∷ []) [] left
      one_inside here other_begins
