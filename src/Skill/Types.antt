-- ===== src/Skill/Types.antt =====
-- avs-skill/src/types.rs
use agentverse.Base.{ℕ, String, Bool, Option, List}

abbrev pub SkillId : Type 0
SkillId = String

pub record Skill : Type 0 where
  pub id : SkillId
  pub version : String
  pub description : String
  pub tags : List String
  pub tools : List String
  pub activation_domains : List String
  pub instructions : String
  pub documents : List String
  pub max_iterations : Option ℕ
  pub hitl_tools : List String
  pub phase_gate : Bool
  pub checkpoints : List String

-- what a session is bound to
pub record SkillContext : Type 0 where
  pub skill_id : SkillId
  pub instructions : String
  pub documents : List String
  pub tools : List String
  pub max_iterations : Option ℕ
