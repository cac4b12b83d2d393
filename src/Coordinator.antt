-- ===== src/Coordinator.antt =====
-- vecscaledb/coordinator/: the hash ring and the metadata store.
pub mod Ring
pub mod Etcd
pub mod Client
pub mod Service
