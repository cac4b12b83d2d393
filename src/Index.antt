-- ===== src/Index.antt =====
-- The indexed segments of vecscaledb/index.
pub mod Faiss
pub mod IvfFlat
pub mod Segment
