-- ===== src/Coordinator.antt =====
-- coordinators/direct_coordinator.py and coordinators/failure_tracker.py: polling, retries, and what
-- is published after a failed read.
pub mod Failure
pub mod Fetch
pub mod Publish
pub mod Outage
mod Tests
