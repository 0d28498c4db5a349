-- ===== src/Selects.antt =====
-- select.py, and the command texts of api/adapters/base.py.
pub mod Options
pub mod Pending
pub mod Release
mod Tests
