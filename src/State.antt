-- ===== src/State.antt =====
-- The shared memory zone: `ngx_http_monitoring_shctx_t` and the structures in it
-- (src/ngx_http_monitoring.h). Every counter is a 64-bit word; arrays are lists.
pub mod Zero
use ngx_http_monitoring_modu.Prelude.{ℕ, List}
use ngx_http_monitoring_modu.Top.{TopEntry}
use ngx_http_monitoring_modu.Upstream.{UpstreamEntry}

-- The sizes of the arrays.
abbrev pub history_max : ℕ
history_max = 3600

abbrev pub top_urls_max : ℕ
top_urls_max = 256

abbrev pub top_ua_max : ℕ
top_ua_max = 64

abbrev pub workers_max : ℕ
workers_max = 128

abbrev pub ifaces_max : ℕ
ifaces_max = 32

abbrev pub disks_max : ℕ
disks_max = 32

abbrev pub filesystems_max : ℕ
filesystems_max = 32

abbrev pub name_len : ℕ
name_len = 64

-- `ngx_http_monitoring_system_metric_t`.
pub record SystemMetric : Type 0 where
  pub usage_milli : ℕ
  pub cores : ℕ
  pub load1_milli : ℕ
  pub load5_milli : ℕ
  pub load15_milli : ℕ
  pub mem_total : ℕ
  pub mem_available : ℕ
  pub mem_free : ℕ
  pub swap_total : ℕ
  pub swap_free : ℕ
  pub uptime : ℕ
  pub process_count : ℕ
  pub tcp_established : ℕ
  pub tcp_listen : ℕ
  pub sockets_used : ℕ
  pub sockets_tcp : ℕ
  pub sockets_udp : ℕ

-- `ngx_http_monitoring_connection_metric_t`.
pub record ConnectionMetric : Type 0 where
  pub total : ℕ
  pub accepted : ℕ
  pub handled : ℕ
  pub active : ℕ
  pub reading : ℕ
  pub writing : ℕ
  pub waiting : ℕ
  pub ssl_requests : ℕ
  pub ssl_handshakes : ℕ
  pub keepalive_requests : ℕ
  pub sse_clients : ℕ
  pub sse_events : ℕ
  pub rate_limited : ℕ

-- `ngx_http_monitoring_request_metric_t`.
pub record RequestMetric : Type 0 where
  pub total : ℕ
  pub responses : ℕ
  pub bytes : ℕ
  pub request_time_ms_total : ℕ
  pub status_1xx : ℕ
  pub status_2xx : ℕ
  pub status_3xx : ℕ
  pub status_4xx : ℕ
  pub status_5xx : ℕ
  pub method : List ℕ
  pub latency_bucket : List ℕ
  pub size_bucket : List ℕ

-- `ngx_http_monitoring_worker_metric_t`.
pub record WorkerMetric : Type 0 where
  pub pid : ℕ
  pub requests : ℕ
  pub bytes : ℕ
  pub last_seen : ℕ
  pub active : ℕ
  pub errors : ℕ
  pub vm_size : ℕ
  pub vm_rss : ℕ
  pub voluntary_ctxt : ℕ
  pub nonvoluntary_ctxt : ℕ

-- `ngx_http_monitoring_iface_metric_t`.
pub record IfaceMetric : Type 0 where
  pub name : List ℕ
  pub rx_bytes : ℕ
  pub tx_bytes : ℕ
  pub rx_packets : ℕ
  pub tx_packets : ℕ
  pub rx_errors : ℕ
  pub tx_errors : ℕ
  pub flags : ℕ

-- `ngx_http_monitoring_disk_metric_t`.
pub record DiskMetric : Type 0 where
  pub name : List ℕ
  pub reads : ℕ
  pub writes : ℕ
  pub read_bytes : ℕ
  pub write_bytes : ℕ
  pub io_ms : ℕ

-- `ngx_http_monitoring_fs_metric_t`.
pub record FsMetric : Type 0 where
  pub path : List ℕ
  pub type : List ℕ
  pub total : ℕ
  pub used : ℕ
  pub free : ℕ
  pub avail : ℕ
  pub files : ℕ
  pub files_free : ℕ

-- `ngx_http_monitoring_history_sample_t`, over the type of C's doubles.
pub record HistorySample (Double : Type 0) : Type 0 where
  pub timestamp : ℕ
  pub msec : ℕ
  pub cpu_usage : Double
  pub load1 : Double
  pub load5 : Double
  pub load15 : Double
  pub memory_used_pct : Double
  pub swap_used_pct : Double
  pub requests_per_sec : Double
  pub responses_per_sec : Double
  pub network_rx_per_sec : Double
  pub network_tx_per_sec : Double
  pub disk_read_per_sec : Double
  pub disk_write_per_sec : Double
  pub latency_p95 : Double
  pub requests_total : ℕ
  pub status_4xx : ℕ
  pub status_5xx : ℕ

-- `ngx_http_monitoring_shctx_t`.
pub record ShCtx (Double : Type 0) : Type 0 where
  pub collector_lock : ℕ
  pub rate_limit_window : ℕ
  pub rate_limit_count : ℕ
  pub history_write : ℕ
  pub history_count : ℕ
  pub history_capacity : ℕ
  pub generation : ℕ
  pub initialized : ℕ
  pub system : SystemMetric
  pub connections : ConnectionMetric
  pub requests : RequestMetric
  pub iface_count : ℕ
  pub ifaces : List IfaceMetric
  pub disk_count : ℕ
  pub disks : List DiskMetric
  pub fs_count : ℕ
  pub filesystems : List FsMetric
  pub workers : List WorkerMetric
  pub urls : List TopEntry
  pub user_agents : List TopEntry
  pub upstreams : List UpstreamEntry
  pub history : List (HistorySample Double)
  pub prev_req_total : ℕ
  pub prev_resp_total : ℕ
  pub prev_net_rx : ℕ
  pub prev_net_tx : ℕ
  pub prev_disk_read : ℕ
  pub prev_disk_write : ℕ
  pub prev_collect_msec : ℕ
  pub prev_history_msec : ℕ
  pub ewma_rps_milli : ℕ
  pub ewma_resp_milli : ℕ
  pub prev_cpu_total : ℕ
  pub prev_cpu_idle : ℕ
