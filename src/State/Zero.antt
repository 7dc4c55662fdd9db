-- ===== src/State/Zero.antt =====
-- The shared memory after `ngx_memzero`, as `ngx_http_monitoring_init_shm` allocates it
-- (src/ngx_http_monitoring_shm.c).
use ngx_http_monitoring_modu.Prelude.{replicate}
use ngx_http_monitoring_modu.Metrics.Buckets.{latency_buckets, size_buckets}
use ngx_http_monitoring_modu.Metrics.Methods.{methods}
use ngx_http_monitoring_modu.Slots.Key.{key_len}
use ngx_http_monitoring_modu.Top
use ngx_http_monitoring_modu.Upstream
use ngx_http_monitoring_modu.Upstream.{upstreams_max}
use ngx_http_monitoring_modu.State.{
  SystemMetric, ConnectionMetric, RequestMetric, WorkerMetric, IfaceMetric, DiskMetric, FsMetric,
  HistorySample, ShCtx, history_max, top_urls_max, top_ua_max, workers_max, ifaces_max, disks_max,
  filesystems_max, name_len,
}

abbrev pub zero_system_metric : SystemMetric
zero_system_metric = record {
  usage_milli = 0;
  cores = 0;
  load1_milli = 0;
  load5_milli = 0;
  load15_milli = 0;
  mem_total = 0;
  mem_available = 0;
  mem_free = 0;
  swap_total = 0;
  swap_free = 0;
  uptime = 0;
  process_count = 0;
  tcp_established = 0;
  tcp_listen = 0;
  sockets_used = 0;
  sockets_tcp = 0;
  sockets_udp = 0;
}

abbrev pub zero_connection_metric : ConnectionMetric
zero_connection_metric = record {
  total = 0;
  accepted = 0;
  handled = 0;
  active = 0;
  reading = 0;
  writing = 0;
  waiting = 0;
  ssl_requests = 0;
  ssl_handshakes = 0;
  keepalive_requests = 0;
  sse_clients = 0;
  sse_events = 0;
  rate_limited = 0;
}

abbrev pub zero_request_metric : RequestMetric
zero_request_metric = record {
  total = 0;
  responses = 0;
  bytes = 0;
  request_time_ms_total = 0;
  status_1xx = 0;
  status_2xx = 0;
  status_3xx = 0;
  status_4xx = 0;
  status_5xx = 0;
  method = replicate methods 0;
  latency_bucket = replicate latency_buckets 0;
  size_bucket = replicate size_buckets 0;
}

abbrev pub zero_worker_metric : WorkerMetric
zero_worker_metric = record {
  pid = 0;
  requests = 0;
  bytes = 0;
  last_seen = 0;
  active = 0;
  errors = 0;
  vm_size = 0;
  vm_rss = 0;
  voluntary_ctxt = 0;
  nonvoluntary_ctxt = 0;
}

abbrev pub zero_iface_metric : IfaceMetric
zero_iface_metric = record {
  name = replicate name_len 0;
  rx_bytes = 0;
  tx_bytes = 0;
  rx_packets = 0;
  tx_packets = 0;
  rx_errors = 0;
  tx_errors = 0;
  flags = 0;
}

abbrev pub zero_disk_metric : DiskMetric
zero_disk_metric = record {
  name = replicate name_len 0;
  reads = 0;
  writes = 0;
  read_bytes = 0;
  write_bytes = 0;
  io_ms = 0;
}

abbrev pub zero_fs_metric : FsMetric
zero_fs_metric = record {
  path = replicate key_len 0;
  type = replicate name_len 0;
  total = 0;
  used = 0;
  free = 0;
  avail = 0;
  files = 0;
  files_free = 0;
}

-- A double zero is all zero bytes.
abbrev pub zero_sample : {Double : Type 0} → Double → HistorySample Double
zero_sample d = record {
  timestamp = 0;
  msec = 0;
  cpu_usage = d;
  load1 = d;
  load5 = d;
  load15 = d;
  memory_used_pct = d;
  swap_used_pct = d;
  requests_per_sec = d;
  responses_per_sec = d;
  network_rx_per_sec = d;
  network_tx_per_sec = d;
  disk_read_per_sec = d;
  disk_write_per_sec = d;
  latency_p95 = d;
  requests_total = 0;
  status_4xx = 0;
  status_5xx = 0;
}

abbrev pub zero_shctx : {Double : Type 0} → Double → ShCtx Double
zero_shctx d = record {
  collector_lock = 0;
  rate_limit_window = 0;
  rate_limit_count = 0;
  history_write = 0;
  history_count = 0;
  history_capacity = 0;
  generation = 0;
  initialized = 0;
  system = zero_system_metric;
  connections = zero_connection_metric;
  requests = zero_request_metric;
  iface_count = 0;
  ifaces = replicate ifaces_max zero_iface_metric;
  disk_count = 0;
  disks = replicate disks_max zero_disk_metric;
  fs_count = 0;
  filesystems = replicate filesystems_max zero_fs_metric;
  workers = replicate workers_max zero_worker_metric;
  urls = replicate top_urls_max Top.zero_entry;
  user_agents = replicate top_ua_max Top.zero_entry;
  upstreams = replicate upstreams_max Upstream.zero_entry;
  history = replicate history_max (zero_sample d);
  prev_req_total = 0;
  prev_resp_total = 0;
  prev_net_rx = 0;
  prev_net_tx = 0;
  prev_disk_read = 0;
  prev_disk_write = 0;
  prev_collect_msec = 0;
  prev_history_msec = 0;
  ewma_rps_milli = 0;
  ewma_resp_milli = 0;
  prev_cpu_total = 0;
  prev_cpu_idle = 0;
}
