-- ===== src/Memory/Session.antt =====
-- avs-memory/src/session: the store of sessions and messages.
pub mod Types
pub mod Sql
pub mod Store
pub mod Maintenance
pub mod Manager
pub mod Tables
pub mod Runs
pub mod Keys
pub mod Contract
pub mod Views
pub mod Keyed
pub mod Atomic
pub mod Refinement
pub mod Retention
pub mod Laws
