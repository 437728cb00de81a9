-- ===== src/Hitl/Policy/Laws.antt =====
-- What a policy built from the trusted skills requires.
use agentverse.Base.{
  String, Bool, true, ◌&&◌, ◌||◌, ◌==◌, string_eq, ◌≡◌, ◌≢◌, refl, ◌∙◌, contains, contains-to_set,
  contains-append, to_set, any, All, Option, none, some, List, [], ◌∷◌, arith,
}
use agentverse.Base.Map.{get, get-nil, get-insert}
use agentverse.Skill.Types.{SkillId, Skill}
use agentverse.Hitl.Policy.{
  HitlPolicy, new, add_skill, add_skills, from_system_skills, gates_contain, requires_tool_approval,
  is_checkpoint_tool, required_tool_names, or_empty,
}

abbrev pub UniqueIds : List Skill → Type 0
UniqueIds [] = Unit
UniqueIds (s ∷ ss) = All (λ (t : Skill). t.id ≢ s.id) ss × UniqueIds ss

-- A skill of that identifier lists the tool among its `hitl_tools`.
abbrev pub declares : List Skill → SkillId → String → Bool
declares ss id tool_name = any (λ s. s.id == id && contains s.hitl_tools tool_name) ss

abbrev gated : HitlPolicy → SkillId → String → Bool
gated p id tool_name = gates_contain (get id p.skill_tool_gates) tool_name

abbrev IsFresh : HitlPolicy → List Skill → Type 0
IsFresh p ss = All (λ (s : Skill). get s.id p.skill_tool_gates ≡ none) ss

gated-add_skill :
    (p : HitlPolicy) (s : Skill) (id : SkillId) (tool_name : String)
    → get s.id p.skill_tool_gates ≡ none
    → gated (add_skill p s) id tool_name
      ≡ (gated p id tool_name || (s.id == id && contains s.hitl_tools tool_name))
unfolding gates_contain add_skill
gated-add_skill p s id tool_name fresh = ground (
  arith,
  contains-to_set s.hitl_tools tool_name,
  get-insert id s.id (to_set s.hitl_tools) p.skill_tool_gates,
)

add_skill-IsFresh :
    (p : HitlPolicy) (s : Skill) (ss : List Skill)
    → All (λ (t : Skill). t.id ≢ s.id) ss
    → IsFresh p ss
    → IsFresh (add_skill p s) ss
unfolding add_skill
add_skill-IsFresh p s [] apart fresh = tt
add_skill-IsFresh p s (t ∷ ts) apart fresh = (
  ground (arith, get-insert t.id s.id (to_set s.hitl_tools) p.skill_tool_gates),
  add_skill-IsFresh p s ts apart.1 fresh.1,
)

gated-add_skills :
    (p : HitlPolicy) (ss : List Skill) (id : SkillId) (tool_name : String)
    → UniqueIds ss
    → IsFresh p ss
    → gated (add_skills p ss) id tool_name ≡ (gated p id tool_name || declares ss id tool_name)
unfolding add_skills
gated-add_skills p [] id tool_name unique fresh = ground arith
gated-add_skills p (s ∷ ss) id tool_name unique fresh = ground (
  arith,
  gated-add_skill p s id tool_name fresh.0,
  gated-add_skills (add_skill p s) ss id tool_name unique.1
      (add_skill-IsFresh p s ss unique.0 fresh.1),
)

blocklist-add_skills :
    (p : HitlPolicy) (ss : List Skill)
    → (add_skills p ss).global_tool_blocklist ≡ p.global_tool_blocklist
unfolding add_skills add_skill
blocklist-add_skills p [] = refl
blocklist-add_skills p (s ∷ ss) = blocklist-add_skills (add_skill p s) ss

new-IsFresh : (ss : List Skill) → IsFresh new ss
unfolding new
new-IsFresh [] = tt
new-IsFresh (s ∷ ss) = (get-nil s.id, new-IsFresh ss)

blocklist-from :
    (skills : List Skill)
    → (from_system_skills skills).global_tool_blocklist ≡ new.global_tool_blocklist
unfolding from_system_skills
blocklist-from skills = blocklist-add_skills new skills

gated-from :
    (skills : List Skill) (id : SkillId) (tool_name : String)
    → UniqueIds skills
    → gated (from_system_skills skills) id tool_name ≡ declares skills id tool_name
unfolding from_system_skills gates_contain
gated-from skills id tool_name unique =
    gated-add_skills new skills id tool_name unique (new-IsFresh skills) ∙ rw (get-nil id)

requires_lem :
    (p : HitlPolicy) (id : SkillId) (tool_name : String)
    → requires_tool_approval p (some id) tool_name
      ≡ (contains p.global_tool_blocklist tool_name || gated p id tool_name)
unfolding requires_tool_approval
requires_lem p id tool_name = ground arith

requires_of_blocklist :
    (p : HitlPolicy) (skill_id : Option SkillId) (tool_name : String)
    → contains p.global_tool_blocklist tool_name ≡ true
    → requires_tool_approval p skill_id tool_name ≡ true
unfolding requires_tool_approval
requires_of_blocklist p skill_id tool_name h = rw h

-- For trusted skills with distinct identifiers, a call under a skill wants approval exactly when the
-- tool stands on the fixed blocklist or that skill lists it among its `hitl_tools`.
pub from_system_skills-requires :
    (skills : List Skill) (id : SkillId) (tool_name : String)
    → UniqueIds skills
    → requires_tool_approval (from_system_skills skills) (some id) tool_name
      ≡ (contains new.global_tool_blocklist tool_name || declares skills id tool_name)
from_system_skills-requires skills id tool_name unique =
    rw (requires_lem, blocklist-from skills, gated-from skills id tool_name unique)

-- Whatever skills are loaded, a tool on the fixed blocklist wants approval under every skill and
-- under none.
blocklist_wins :
    (skills : List Skill) (skill_id : Option SkillId) (tool_name : String)
    → contains new.global_tool_blocklist tool_name ≡ true
    → requires_tool_approval (from_system_skills skills) skill_id tool_name ≡ true
blocklist_wins skills skill_id tool_name h =
    requires_of_blocklist (from_system_skills skills) skill_id tool_name
      (rw (blocklist-from skills) h)

-- Every tool that must be called before a skill may finish is one whose call is intercepted: a
-- checkpoint, or a tool that wants approval under that skill.
pub required_is_intercepted :
    (p : HitlPolicy) (skill_id : Option SkillId) (tool_name : String)
    → contains (required_tool_names p skill_id) tool_name ≡ true
    → (is_checkpoint_tool tool_name || requires_tool_approval p skill_id tool_name) ≡ true
unfolding required_tool_names requires_tool_approval is_checkpoint_tool
required_is_intercepted p none tool_name h = cc
required_is_intercepted p (some id) tool_name h =
    let gates = or_empty (get id p.skill_tool_gates) in
    ground (
      arith,
      contains-append gates [] tool_name,
      contains-append gates ("request_checkpoint" ∷ []) tool_name,
    )
