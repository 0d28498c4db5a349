-- ===== src/Sensors.antt =====
-- The entities of Home Assistant that compute their state from sections: binary_sensor.py and
-- sensors/direct_sensor.py.
pub mod Binary
pub mod Warnings
pub mod Flags
pub mod Agreement
pub mod Summary
pub mod Readings
mod Tests
