-- ===== src/Modbus.antt =====
-- api/protocols/modbus_rtu.py: the frames of Modbus RTU and the registers of an SMG-II.
pub mod Framing
pub mod Roundtrip
pub mod Stream
pub mod Write
pub mod Device
pub mod Smg2
pub mod Projections
pub mod Adapter
pub mod Settings
pub mod Snapshot
mod Tests
