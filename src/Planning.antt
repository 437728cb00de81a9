-- ===== src/Planning.antt =====
-- avs-plan: the strategies that make a plan first and carry it out then.
pub mod Planner
pub mod Execute
pub mod Laws
