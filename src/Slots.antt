-- ===== src/Slots.antt =====
-- The fixed tables of keyed counters, as far as the top tables and the upstream table share them:
-- the search loop of `ngx_http_monitoring_update_top` and of
-- `ngx_http_monitoring_update_upstream_slot`, and the stored key (src/ngx_http_monitoring_shm.c).
pub mod Search
pub mod Key
pub mod Table
