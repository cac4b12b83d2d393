-- ===== src/Reader.antt =====
-- vecscaledb/reader/: the segment cache and the service around it.
pub mod Cache
pub mod Service
