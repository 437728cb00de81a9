-- ===== src/Skill.antt =====
-- avs-skill: skills.
pub mod Types
