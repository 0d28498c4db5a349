-- ===== src/Pi18.antt =====
-- api/decoders/pi18.py and api/protocols/pi18_tcp.py: the dialect of InfiniSolar-V inverters.
pub mod Tables
pub mod Frame
pub mod Numbers
pub mod Fields
pub mod Status
pub mod Rated
pub mod Warnings
pub mod Respond
pub mod Transport
pub mod Enums
mod Tests
pub mod Delivery
pub mod Request
pub mod Errors
