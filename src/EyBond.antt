-- ===== src/EyBond.antt =====
-- The EyBond hub: frames, discovered dongles, poll targets and sessions.
pub mod Registry
pub mod Lifecycle
pub mod Stored
pub mod Children
pub mod Restart
pub mod Identity
pub mod Wire
pub mod Frames
pub mod Manager
pub mod Handler
pub mod Dispatch
pub mod Routing
pub mod Invariant
pub mod Reachable
pub mod Requests
mod Tests
