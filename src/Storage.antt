-- ===== src/Storage.antt =====
-- The storage engine of vecscaledb/storage.
pub mod Merge
pub mod Wal
pub mod MemTable
pub mod Snapshot
pub mod Lsm
