-- ===== src/Workload.antt =====
-- The offered workload: the configuration, the request trace, and its replay.
pub mod Config
pub mod Rng
pub mod Trace
pub mod Scenarios
pub mod Start
pub mod Issue
pub mod Replay
pub mod Output
pub mod Entrypoint
mod Tests
