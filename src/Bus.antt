-- ===== src/Bus.antt =====
-- api/commands/direct_command_queue.py: the queue of a transport and the registry of queues.
pub mod Queue
pub mod Order
pub mod Lanes
pub mod Registry
pub mod Owners
pub mod Counts
mod Tests
