-- ===== src/Metrics.antt =====
-- The classification of a request (src/ngx_http_monitoring_shm.c): its histogram buckets, its
-- method index, and the percentile that is read back from the latency histogram.
pub mod Buckets
pub mod Percentile
pub mod Methods
