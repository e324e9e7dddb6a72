-- ===== src/Collector.antt =====
-- The measurements that collector/collect.py takes.
pub mod Query
pub mod Rows
pub mod Sampling
pub mod Clients
pub mod Command
mod Tests
