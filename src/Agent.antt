-- ===== src/Agent.antt =====
-- avs-agent: turns, phases, suspended sessions, and what keeps the store of sessions.
pub mod Types
pub mod Calls
pub mod Resume
pub mod Phases
pub mod Invoke
pub mod Sessions
pub mod Workers
