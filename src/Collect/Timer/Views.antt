-- ===== src/Collect/Timer/Views.antt =====
-- What collections write, what they refresh, and what they leave for the new sample
-- (src/ngx_http_monitoring_collectors.c).
use ngx_http_monitoring_modu.Prelude.{ℕ, ◌≡◌, ◌∙◌, arith, List, if◌then◌else◌}
use ngx_http_monitoring_modu.State.{
  SystemMetric, ShCtx, RequestMetric, IfaceMetric, DiskMetric, FsMetric, HistorySample, ifaces_max,
  disks_max, filesystems_max,
}
use ngx_http_monitoring_modu.Http.{MainConf}
use ngx_http_monitoring_modu.History.{DoubleOps}
use ngx_http_monitoring_modu.Collect.Libc.{Libc, lines_of}
use ngx_http_monitoring_modu.Collect.System.{
  cpu_step, collect_cpu, collect_load, collect_meminfo, collect_uptime, collect_processes,
  collect_tcp, collect_sockstat, collect_nginx,
}
use ngx_http_monitoring_modu.Collect.Tables.{iface_line, add_flags, disk_line, fs_line}
use ngx_http_monitoring_modu.Collect.Tables.Fill.{accepted}
use ngx_http_monitoring_modu.Collect.Tables.Laws.{table}

-- What collections write into the zone, with the lock; only the count of the samples is left out,
-- since a reload writes it as well.
pub record Collected (Double : Type 0) : Type 0 where
  pub system : SystemMetric
  pub accepted : ℕ
  pub handled : ℕ
  pub total : ℕ
  pub active : ℕ
  pub reading : ℕ
  pub writing : ℕ
  pub waiting : ℕ
  pub iface_count : ℕ
  pub ifaces : List IfaceMetric
  pub disk_count : ℕ
  pub disks : List DiskMetric
  pub fs_count : ℕ
  pub filesystems : List FsMetric
  pub history_write : ℕ
  pub history : List (HistorySample Double)
  pub prev_req_total : ℕ
  pub prev_resp_total : ℕ
  pub prev_net_rx : ℕ
  pub prev_net_tx : ℕ
  pub prev_disk_read : ℕ
  pub prev_disk_write : ℕ
  pub prev_collect_msec : ℕ
  pub prev_history_msec : ℕ
  pub ewma_rps_milli : ℕ
  pub ewma_resp_milli : ℕ
  pub prev_cpu_total : ℕ
  pub prev_cpu_idle : ℕ

abbrev pub collected : {Double : Type 0} → ShCtx Double → Collected Double
collected sh = record {
  system = sh.system;
  accepted = sh.connections.accepted;
  handled = sh.connections.handled;
  total = sh.connections.total;
  active = sh.connections.active;
  reading = sh.connections.reading;
  writing = sh.connections.writing;
  waiting = sh.connections.waiting;
  iface_count = sh.iface_count;
  ifaces = sh.ifaces;
  disk_count = sh.disk_count;
  disks = sh.disks;
  fs_count = sh.fs_count;
  filesystems = sh.filesystems;
  history_write = sh.history_write;
  history = sh.history;
  prev_req_total = sh.prev_req_total;
  prev_resp_total = sh.prev_resp_total;
  prev_net_rx = sh.prev_net_rx;
  prev_net_tx = sh.prev_net_tx;
  prev_disk_read = sh.prev_disk_read;
  prev_disk_write = sh.prev_disk_write;
  prev_collect_msec = sh.prev_collect_msec;
  prev_history_msec = sh.prev_history_msec;
  ewma_rps_milli = sh.ewma_rps_milli;
  ewma_resp_milli = sh.ewma_resp_milli;
  prev_cpu_total = sh.prev_cpu_total;
  prev_cpu_idle = sh.prev_cpu_idle;
}

-- The three tables with their counts.
pub record TableView : Type 0 where
  pub iface_count : ℕ
  pub ifaces : List IfaceMetric
  pub disk_count : ℕ
  pub disks : List DiskMetric
  pub fs_count : ℕ
  pub filesystems : List FsMetric

abbrev pub tables_of : {Double : Type 0} → ShCtx Double → TableView
tables_of sh = record {
  iface_count = sh.iface_count;
  ifaces = sh.ifaces;
  disk_count = sh.disk_count;
  disks = sh.disks;
  fs_count = sh.fs_count;
  filesystems = sh.filesystems;
}

-- The ring, the requests, and what the averages and the rates are computed from.
pub record Former (Double : Type 0) : Type 0 where
  pub history_write : ℕ
  pub history_count : ℕ
  pub history_capacity : ℕ
  pub history : List (HistorySample Double)
  pub requests : RequestMetric
  pub prev_req_total : ℕ
  pub prev_resp_total : ℕ
  pub prev_net_rx : ℕ
  pub prev_net_tx : ℕ
  pub prev_disk_read : ℕ
  pub prev_disk_write : ℕ
  pub prev_collect_msec : ℕ
  pub prev_history_msec : ℕ
  pub ewma_rps_milli : ℕ
  pub ewma_resp_milli : ℕ

abbrev pub former : {Double : Type 0} → ShCtx Double → Former Double
former sh = record {
  history_write = sh.history_write;
  history_count = sh.history_count;
  history_capacity = sh.history_capacity;
  history = sh.history;
  requests = sh.requests;
  prev_req_total = sh.prev_req_total;
  prev_resp_total = sh.prev_resp_total;
  prev_net_rx = sh.prev_net_rx;
  prev_net_tx = sh.prev_net_tx;
  prev_disk_read = sh.prev_disk_read;
  prev_disk_write = sh.prev_disk_write;
  prev_collect_msec = sh.prev_collect_msec;
  prev_history_msec = sh.prev_history_msec;
  ewma_rps_milli = sh.ewma_rps_milli;
  ewma_resp_milli = sh.ewma_resp_milli;
}

module _ {Double : Type 0} (libc : Libc Double) where
  -- The interfaces that the accepted lines give in the first slots.
  abbrev pub with_network : List ℕ → TableView → TableView
  with_network net t =
      let i = table ifaces_max (accepted (iface_line libc) (lines_of net)) t.ifaces in
      record t { iface_count = i.0; ifaces = add_flags libc i }

  abbrev pub with_mounts : List (List ℕ) → TableView → TableView
  with_mounts mounts t =
      let f = table filesystems_max (accepted (fs_line libc) mounts) t.filesystems in
      record t { fs_count = f.0; filesystems = f.1 }

  -- The same for the disks and the file systems.
  abbrev pub with_system : List ℕ → List (List ℕ) → TableView → TableView
  with_system disks mounts t =
      let d = table disks_max (accepted (disk_line libc) (lines_of disks)) t.disks in
      with_mounts mounts (record t { disk_count = d.0; disks = d.1 })

  -- The tables after a collection that reads these texts, as far as the configuration asks for it.
  abbrev pub refreshed : MainConf → List ℕ → List ℕ → List (List ℕ) → TableView → TableView
  refreshed conf net disks mounts t =
      let s = if conf.collect_system then with_system disks mounts t else t in
      if conf.collect_network then with_network net s else s

-- The tables and what the sample is computed from stay.
abbrev pub KeepsStored : {Double : Type 0} → ShCtx Double → ShCtx Double → Type 0
KeepsStored {Double} sh sh' = (tables_of sh' ≡ tables_of sh) × (former sh' ≡ former sh)

pub KeepsStored-trans :
    {Double : Type 0} (a b c : ShCtx Double) → KeepsStored a b → KeepsStored b c → KeepsStored a c
KeepsStored-trans a b c (t, f) (t', f') = (t' ∙ t, f' ∙ f)

module _ {Double : Type 0} (libc : Libc Double) (ops : DoubleOps Double) where
  pub collect_cpu-KeepsStored : (sh : ShCtx Double) → KeepsStored sh (collect_cpu libc sh)
  unfolding collect_cpu cpu_step
  collect_cpu-KeepsStored sh = ground arith

  pub collect_load-KeepsStored : (sh : ShCtx Double) → KeepsStored sh (collect_load libc ops sh)
  unfolding collect_load
  collect_load-KeepsStored sh = ground arith

  pub collect_meminfo-KeepsStored : (sh : ShCtx Double) → KeepsStored sh (collect_meminfo libc sh)
  unfolding collect_meminfo
  collect_meminfo-KeepsStored sh = ground arith

  pub collect_uptime-KeepsStored : (sh : ShCtx Double) → KeepsStored sh (collect_uptime libc sh)
  unfolding collect_uptime
  collect_uptime-KeepsStored sh = ground arith

  pub collect_processes-KeepsStored :
      (sh : ShCtx Double) → KeepsStored sh (collect_processes libc sh)
  unfolding collect_processes
  collect_processes-KeepsStored sh = ground arith

  pub collect_tcp-KeepsStored : (sh : ShCtx Double) → KeepsStored sh (collect_tcp libc sh)
  unfolding collect_tcp
  collect_tcp-KeepsStored sh = ground arith

  pub collect_sockstat-KeepsStored : (sh : ShCtx Double) → KeepsStored sh (collect_sockstat libc sh)
  unfolding collect_sockstat
  collect_sockstat-KeepsStored sh = ground arith

  pub collect_nginx-KeepsStored : (sh : ShCtx Double) → KeepsStored sh (collect_nginx libc sh)
  unfolding collect_nginx
  collect_nginx-KeepsStored sh = ground arith
