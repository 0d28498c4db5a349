-- ===== src/Energy.antt =====
-- sensors/direct_energy_sensors.py: energy as the integral of power over time.
pub mod Meter
pub mod Growth
pub mod Estimates
mod Tests
