-- ===== src/Hitl/Policy.antt =====
-- avs-hitl/src/policy.rs. A `HashSet` is a list without repetitions, a `HashMap` an association list.
pub mod Laws
use agentverse.Base.{
  String, Bool, true, false, not, ◌==◌, string_eq, if◌then◌else◌, contains, to_set, is_empty,
  Option, none, some, List, [], ◌∷◌, ◌++◌,
}
use agentverse.Base.Map.{Map, get, insert}
use agentverse.Skill.Types.{SkillId, Skill}

pub record HitlPolicy : Type 0 where
  pub global_tool_blocklist : List String
  pub skill_tool_gates : Map SkillId (List String)
  pub skill_phase_gates : List SkillId
  pub skill_checkpoints : Map SkillId (List String)

unfoldable pub new : HitlPolicy
new = record {
  global_tool_blocklist =
      "file_delete" ∷ "exec_command" ∷ "system_shutdown" ∷ "database_delete" ∷ [];
  skill_tool_gates = [];
  skill_phase_gates = [];
  skill_checkpoints = [];
}

-- the body of the loop of `from_system_skills`
unfoldable pub add_skill : HitlPolicy → Skill → HitlPolicy
add_skill policy skill = record {
  global_tool_blocklist = policy.global_tool_blocklist;
  skill_tool_gates =
      if is_empty skill.hitl_tools
      then policy.skill_tool_gates
      else insert skill.id (to_set skill.hitl_tools) policy.skill_tool_gates;
  skill_phase_gates =
      if skill.phase_gate
      then to_set (skill.id ∷ policy.skill_phase_gates)
      else policy.skill_phase_gates;
  skill_checkpoints =
      if is_empty skill.checkpoints
      then policy.skill_checkpoints
      else insert skill.id skill.checkpoints policy.skill_checkpoints;
}

unfoldable pub add_skills : HitlPolicy → List Skill → HitlPolicy
unfolding add_skill
add_skills policy [] = policy
add_skills policy (skill ∷ skills) = add_skills (add_skill policy skill) skills

unfoldable pub from_system_skills : List Skill → HitlPolicy
unfolding new add_skills
from_system_skills skills = add_skills new skills

gates_contain : Option (List String) → String → Bool
gates_contain none tool_name = false
gates_contain (some gates) tool_name = contains gates tool_name

gates_of : Option SkillId → HitlPolicy → Option (List String)
gates_of none policy = none
gates_of (some id) policy = get id policy.skill_tool_gates

unfoldable pub requires_tool_approval : HitlPolicy → Option SkillId → String → Bool
unfolding gates_of gates_contain
requires_tool_approval policy skill_id tool_name =
    if contains policy.global_tool_blocklist tool_name
    then true
    else gates_contain (gates_of skill_id policy) tool_name

unfoldable pub requires_phase_gate : HitlPolicy → SkillId → Bool
requires_phase_gate policy skill_id = contains policy.skill_phase_gates skill_id

unfoldable pub is_checkpoint_tool : String → Bool
is_checkpoint_tool tool_name = tool_name == "request_checkpoint"

or_empty : Option (List String) → List String
or_empty none = []
or_empty (some xs) = xs

unfoldable pub required_tool_names : HitlPolicy → Option SkillId → List String
unfolding or_empty
required_tool_names policy none = []
required_tool_names policy (some id) =
    or_empty (get id policy.skill_tool_gates)
    ++ (if is_empty (or_empty (get id policy.skill_checkpoints))
        then []
        else "request_checkpoint" ∷ [])
