-- ===== src/Tests.antt =====
-- Runs on concrete inputs, and each theorem at an input that meets its conditions.
mod Merge
mod Wal
mod Memory
mod Index
mod Engine
mod Compaction
mod Search
mod Node
mod Reader
mod Metrics
mod Ring
mod Etcd
mod Cache
mod Service
mod Pipeline
mod Client
