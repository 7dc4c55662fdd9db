-- ===== src/Collect.antt =====
-- The collectors (src/ngx_http_monitoring_collectors.c).
pub mod Libc
pub mod Mounts
pub mod System
pub mod Tables
pub mod Timer
