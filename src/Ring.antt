-- ===== src/Ring.antt =====
-- frame_log.py and diag_hub.py: the bounded buffers of recent frames and of debug events.
pub mod Log
pub mod Recent
mod Tests
