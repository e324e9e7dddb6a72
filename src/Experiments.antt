-- ===== src/Experiments.antt =====
-- The evaluation of the experiments.
pub mod Calibration
pub mod Stable
pub mod Polling
pub mod Readiness
pub mod Runner
mod Tests
