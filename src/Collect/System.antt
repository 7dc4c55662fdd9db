-- ===== src/Collect/System.antt =====
-- The collectors of single numbers: `ngx_http_monitoring_collect_cpu`, `_load`, `_meminfo`,
-- `_uptime`, `_processes`, `_self_status`, `_tcp`, `_sockstat` and `_nginx`
-- (src/ngx_http_monitoring_collectors.c).
pub mod Usage
use Prim.Native.Nat.{◌/◌}
use ngx_http_monitoring_modu.Prelude.{
  ℕ, ◌&&◌, Bool, List, [], ◌∷◌, ◌%◌, Option, none, some, ℤ, pos, negsuc, codes, length, get_or, set,
  add_word, sub_word, mul_word, ltb, ◌==◌, if◌then◌else◌,
}
use ngx_http_monitoring_modu.State.{ShCtx, SystemMetric, WorkerMetric, workers_max}
use ngx_http_monitoring_modu.State.Zero.{zero_worker_metric}
use ngx_http_monitoring_modu.History.{DoubleOps}
use ngx_http_monitoring_modu.Collect.Libc.{
  Libc, StubStatus, is_digit, lines_of, read_text, scan_value,
}

-- The loop over the lines of a text.
abbrev pub each_line : {A : Type 0} → (A → List ℕ → A) → A → List (List ℕ) → A
each_line f a [] = a
each_line f a (line ∷ lines) = each_line f (f a line) lines

-- A number of kB in bytes.
abbrev pub kilobytes : ℕ → ℕ
kilobytes value = mul_word value 1024

-- The sum of all times, and the idle time; a time that is not there is 0.
unfoldable pub cpu_total : List ℕ → ℕ
cpu_total v =
    add_word
      (add_word
        (add_word
          (add_word
            (add_word (add_word (add_word (get_or v 0 0) (get_or v 1 0)) (get_or v 2 0))
              (get_or v 3 0))
            (get_or v 4 0))
          (get_or v 5 0))
        (get_or v 6 0))
      (get_or v 7 0)

unfoldable pub cpu_idle : List ℕ → ℕ
cpu_idle v = add_word (get_or v 3 0) (get_or v 4 0)

-- The usage in thousandths of a percent since the last time; `old` stays without one.
unfoldable pub cpu_usage : ℕ → ℕ → ℕ → ℕ → ℕ → ℕ
cpu_usage prev_total prev_idle total idle old =
    let delta_total = sub_word total prev_total in
    let delta_idle = sub_word idle prev_idle in
    if ltb 0 prev_total && ltb prev_total total
    then if ltb 0 delta_total
      then mul_word (sub_word delta_total delta_idle) 100000 / delta_total
      else old
    else old

abbrev pub is_core : List ℕ → Bool
is_core line =
    get_or line 0 0 == 99
    && get_or line 1 0 == 112
    && get_or line 2 0 == 117
    && is_digit (get_or line 3 0)

abbrev pub count_if : {A : Type 0} → (A → Bool) → ℕ → List A → ℕ
count_if f n [] = n
count_if f n (x ∷ xs) = count_if f (if f x then add_word n 1 else n) xs

unfoldable pub count_cores : List ℕ → ℕ
unfolding lines_of
count_cores text = count_if is_core 0 (lines_of text)

module _ {Double : Type 0} (libc : Libc Double) where
  unfoldable pub cpu_step : List ℕ → ShCtx Double → ShCtx Double
  unfolding cpu_total cpu_idle cpu_usage count_cores
  cpu_step text sh =
      let v = libc.scan text (codes "cpu %llu %llu %llu %llu %llu %llu %llu %llu") in
      let total = cpu_total v in
      let idle = cpu_idle v in
      let cores = count_cores text in
      if ltb (length v) 4 then sh else record sh {
        system = record sh.system {
          usage_milli =
              cpu_usage sh.prev_cpu_total sh.prev_cpu_idle total idle sh.system.usage_milli;
          cores = if ltb 0 cores then cores else sh.system.cores;
        };
        prev_cpu_total = total;
        prev_cpu_idle = idle;
      }

  unfoldable pub collect_cpu : ShCtx Double → ShCtx Double
  unfolding read_text cpu_step
  collect_cpu sh = elim (read_text libc (codes "/proc/stat") 32768) [
    | none ↦ sh
    | some text ↦ cpu_step text sh
  ]

  module _ (ops : DoubleOps Double) where
    open ops use {of_word, times}

    abbrev pub load_milli : Double → ℕ
    load_milli l = libc.to_word (times l (of_word 1000))

    -- What three numbers set; with less nothing is set.
    abbrev pub set_load : List Double → SystemMetric → SystemMetric
    set_load [] m = m
    set_load (l1 ∷ []) m = m
    set_load (l1 ∷ l5 ∷ []) m = m
    set_load (l1 ∷ l5 ∷ l15 ∷ more) m = record m {
      load1_milli = load_milli l1;
      load5_milli = load_milli l5;
      load15_milli = load_milli l15;
    }

    unfoldable pub collect_load : ShCtx Double → ShCtx Double
    unfolding read_text
    collect_load sh = elim (read_text libc (codes "/proc/loadavg") 256) [
      | none ↦ sh
      | some text ↦ record sh {
        system = set_load (libc.scan_doubles text (codes "%lf %lf %lf")) sh.system;
      }
    ]

  unfoldable pub meminfo_line : SystemMetric → List ℕ → SystemMetric
  meminfo_line m line = elim (scan_value libc line (codes "MemTotal: %llu kB")) [
    | some v ↦ record m { mem_total = kilobytes v }
    | none ↦ elim (scan_value libc line (codes "MemAvailable: %llu kB")) [
      | some v ↦ record m { mem_available = kilobytes v }
      | none ↦ elim (scan_value libc line (codes "MemFree: %llu kB")) [
        | some v ↦ record m { mem_free = kilobytes v }
        | none ↦ elim (scan_value libc line (codes "SwapTotal: %llu kB")) [
          | some v ↦ record m { swap_total = kilobytes v }
          | none ↦ elim (scan_value libc line (codes "SwapFree: %llu kB")) [
            | some v ↦ record m { swap_free = kilobytes v }
            | none ↦ m
          ]
        ]
      ]
    ]
  ]

  unfoldable pub collect_meminfo : ShCtx Double → ShCtx Double
  unfolding read_text lines_of meminfo_line
  collect_meminfo sh = elim (read_text libc (codes "/proc/meminfo") 8192) [
    | none ↦ sh
    | some text ↦ record sh { system = each_line meminfo_line sh.system (lines_of text) }
  ]

  abbrev pub set_uptime : List Double → SystemMetric → SystemMetric
  set_uptime [] m = m
  set_uptime (uptime ∷ more) m = record m { uptime = libc.to_word uptime }

  unfoldable pub collect_uptime : ShCtx Double → ShCtx Double
  unfolding read_text
  collect_uptime sh = elim (read_text libc (codes "/proc/uptime") 256) [
    | none ↦ sh
    | some text ↦ record sh { system = set_uptime (libc.scan_doubles text (codes "%lf")) sh.system }
  ]

  unfoldable pub collect_processes : ShCtx Double → ShCtx Double
  collect_processes sh = elim libc.proc_names [
    | none ↦ sh
    | some names ↦ record sh {
      system = record sh.system {
        process_count = count_if (λ name. is_digit (get_or name 0 0)) 0 names;
      };
    }
  ]

  unfoldable pub status_line : WorkerMetric → List ℕ → WorkerMetric
  status_line w line = elim (scan_value libc line (codes "VmSize: %llu kB")) [
    | some v ↦ record w { vm_size = kilobytes v }
    | none ↦ elim (scan_value libc line (codes "VmRSS: %llu kB")) [
      | some v ↦ record w { vm_rss = kilobytes v }
      | none ↦ elim (scan_value libc line (codes "voluntary_ctxt_switches: %llu")) [
        | some v ↦ record w { voluntary_ctxt = v }
        | none ↦ elim (scan_value libc line (codes "nonvoluntary_ctxt_switches: %llu")) [
          | some v ↦ record w { nonvoluntary_ctxt = v }
          | none ↦ w
        ]
      ]
    ]
  ]

  unfoldable pub collect_self_status : ℤ → List WorkerMetric → List WorkerMetric
  unfolding read_text lines_of status_line
  collect_self_status (negsuc n) workers = workers
  collect_self_status (pos n) workers = elim (read_text libc (codes "/proc/self/status") 8192) [
    | none ↦ workers
    | some text ↦ set workers (n % workers_max) (
        each_line status_line (get_or workers (n % workers_max) zero_worker_metric) (lines_of text))
  ]

  -- The numbers of connections that are established and that listen.
  abbrev pub tcp_line : ℕ × ℕ → List ℕ → ℕ × ℕ
  tcp_line count line = elim (scan_value libc line (codes " %*u: %*64s %*64s %x")) [
    | none ↦ count
    | some state ↦
        if state == 1
        then (add_word count.0 1, count.1)
        else if state == 10
        then (count.0, add_word count.1 1)
        else count
  ]

  -- A file's lines behind the first one.
  abbrev pub tcp_lines : ℕ × ℕ → Option (List (List ℕ)) → ℕ × ℕ
  tcp_lines count none = count
  tcp_lines count (some []) = count
  tcp_lines count (some (header ∷ lines)) = each_line tcp_line count lines

  unfoldable pub collect_tcp : ShCtx Double → ShCtx Double
  collect_tcp sh =
      let v4 = tcp_lines (0, 0) (libc.file_lines (codes "/proc/net/tcp") 512) in
      let count = tcp_lines v4 (libc.file_lines (codes "/proc/net/tcp6") 512) in
      record sh { system = record sh.system { tcp_established = count.0; tcp_listen = count.1 } }

  unfoldable pub sockstat_line : SystemMetric → List ℕ → SystemMetric
  sockstat_line m line = elim (scan_value libc line (codes "sockets: used %u")) [
    | some v ↦ record m { sockets_used = v }
    | none ↦ elim (scan_value libc line (codes "TCP: inuse %u")) [
      | some v ↦ record m { sockets_tcp = v }
      | none ↦ elim (scan_value libc line (codes "UDP: inuse %u")) [
        | some v ↦ record m { sockets_udp = v }
        | none ↦ m
      ]
    ]
  ]

  unfoldable pub collect_sockstat : ShCtx Double → ShCtx Double
  unfolding read_text lines_of sockstat_line
  collect_sockstat sh = elim (read_text libc (codes "/proc/net/sockstat") 4096) [
    | none ↦ sh
    | some text ↦ record sh { system = each_line sockstat_line sh.system (lines_of text) }
  ]

  -- A build without NGX_STAT_STUB does nothing.
  unfoldable pub collect_nginx : ShCtx Double → ShCtx Double
  collect_nginx sh = elim libc.stub_status [
    | none ↦ sh
    | some stat ↦ record sh {
      connections = record sh.connections {
        accepted = stat.accepted;
        handled = stat.handled;
        total = stat.active;
        active = stat.active;
        reading = stat.reading;
        writing = stat.writing;
        waiting = stat.waiting;
      };
    }
  ]
