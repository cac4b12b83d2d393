-- ===== src/Writer.antt =====
-- vecscaledb/writer/: the ingest pipeline.
pub mod Pipeline
pub mod Service
