-- ===== src/Agent.antt =====
-- api/protocols/agent_http.py and api/adapters/agent.py: the snapshots of a solar-system-agent.
pub mod Split
pub mod Adapter
pub mod Status
mod Tests
