-- ===== src/Soc.antt =====
-- soc_core.py: the estimator of the state of charge. `Stamp` is `datetime`.
pub mod Estimator
pub mod Bounds
pub mod Sensor
pub mod Sync
mod Tests
pub mod Shown
