-- ===== src/Agent/Invoke.antt =====
-- avs-agent/src/agent/invoke.rs: one turn of a session, from the question to what is kept of the answer.
-- The router of strategies, the strategies, the retrieval of memories and the skills are fields.
pub mod Turn
use agentverse.Base.{
  ℕ, String, Bool, true, false, ◌<>◌, ◌==◌, string_eq, nat_eq, is_empty, if◌then◌else◌, Option,
  none, some, List, [], ◌∷◌, ◌++◌, map, retain, join, Result, ok, err,
}
use agentverse.Base.Text.{is_blank}
use agentverse.Core.Error as Core
use agentverse.Core.Message.{Message, MessageRole, system, user, assistant, text_message}
use agentverse.Core.Strategy.{HitlInterrupt, StrategyOutcome, done, interrupted}
use agentverse.Hitl.Policy.{HitlPolicy}
use agentverse.Hitl.Context
use agentverse.Hitl.Context.{HitlContext}
use agentverse.Memory.Session.Types.{SessionMemoryError}
use agentverse.Memory.Working as Working
use agentverse.Memory.Working.{CacheMemory, Key, key_eq}
use agentverse.Skill.Types.{SkillContext}
use agentverse.Tools.Registry.{has_tool, tool_names}
use agentverse.Agent.Types.{
  AgentOutput, finished, AgentError, session, llm, skill, json,
  routed_strategy_does_not_support_hitl, Agent, StrategyName, react, and_then,
}
use agentverse.Agent.Calls.{handle_tool_interrupt}
use agentverse.Agent.Resume.{assert_owner}

pub record Skills : Type 0 where
  pub route : String → Option String
  pub compile : String → Result SkillContext AgentError
  pub summaries : String

abbrev pub Run : Type 0 → Type 0
Run S = S → Result StrategyOutcome Core.AgentError × S

-- a strategy that is built for one turn
pub record Strategy (S : Type 0) : Type 0 where
  pub run : List Message → Run S
  pub run_with_active_tools : List Message → List String → Run S
  pub run_hitl : List Message → List String → HitlContext → Run S

pub record Invoker (S : Type 0) : Type 0 where
  pub agent : Agent S SkillContext
  pub strategy : Strategy S
  pub strategy_router : Option (String → Result StrategyName AgentError)
  pub build : StrategyName → List String → Strategy S
  pub skills : Option Skills
  pub base_prompt : Option String
  pub retrieve : Option (String → String → Result (List String) String)
  pub to_context_json : SkillContext → String
  pub bad_context : String
  pub load_messages : ℕ → S → Result (List Message) SessionMemoryError
  pub append_turn : ℕ → Message → Message → S → Result (Unit {0}) SessionMemoryError × S
  pub get_skill_context : ℕ → S → Result (Option String) SessionMemoryError
  pub set_skill_context : ℕ → Option String → S → Result (Unit {0}) SessionMemoryError × S
  pub get_phase_opening_context : ℕ → S → Result (Option String) SessionMemoryError
  pub set_phase_opening_context : ℕ → Option String → S → Result (Unit {0}) SessionMemoryError × S

-- the store, the working memory, and the memories that background tasks are to write
pub record World (S : Type 0) : Type 0 where
  pub store : S
  pub cache : CacheMemory
  pub spawned : List (String × String)

abbrev pub Answer : Type 0 → Type 0
Answer S = Result AgentOutput AgentError × World S

non_blank : Option String → List String
unfolding is_blank
non_blank none = []
non_blank (some t) = if is_blank t then [] else t ∷ []

non_empty : Option String → List String
non_empty none = []
non_empty (some t) = if t == "" then [] else t ∷ []

joined : List String → Option String
joined [] = none
joined (p ∷ ps) = some (join "\n\n" (p ∷ ps))

system_parts : Option SkillContext → Option String → List String
unfolding non_empty
system_parts (some ctx) summaries = ctx.instructions ∷ ctx.documents
system_parts none summaries = non_empty summaries

unfoldable pub assemble_system : Option String → Option SkillContext → Option String → Option String
unfolding system_parts non_blank joined join
assemble_system base skill_ctx summaries =
    joined (system_parts skill_ctx summaries ++ non_blank base)

system_content : Option String → Option String → List Message
system_content (some sys) (some lt) = text_message system (sys <> ("\n\n" <> lt)) ∷ []
system_content (some sys) none = text_message system sys ∷ []
system_content none (some lt) = text_message system lt ∷ []
system_content none none = []

unfoldable pub assemble_messages_with_context :
    Option String → Option String → List Message → String → List Message
unfolding system_content
assemble_messages_with_context sys long_term history input =
    system_content sys long_term ++ (history ++ text_message user input ∷ [])

-- `assemble_messages`, which `invoke_stateless` calls
unfoldable pub assemble_messages : Option String → List Message → String → List Message
unfolding assemble_messages_with_context
assemble_messages sys history input = assemble_messages_with_context sys none history input

memory_lines : List String → Option String
memory_lines [] = none
memory_lines (m ∷ ms) = some (join "\n" (map (λ c. "[Memory] " <> c) (m ∷ ms)))

retrieved : Result (List String) String → List String
retrieved (ok memories) = memories
retrieved (err e) = []

unfoldable pub is_react : StrategyName → Bool
is_react react = true
is_react _ = false

abbrev pub is_configured : {A : Type 0} → Option A → Bool
is_configured none = false
is_configured (some a) = true

module _ {S : Type 0} (v : Invoker S) where
  unfoldable pub long_term_text : String → String → Option String
  unfolding memory_lines retrieved
  long_term_text user_id input = elim v.retrieve [
    | none ↦ none
    | some retrieve ↦ memory_lines (retrieved (retrieve user_id input))
  ]

  unfoldable pub active_tool_names : Option SkillContext → List String
  unfolding has_tool tool_names
  active_tool_names none = tool_names v.agent.tools
  active_tool_names (some ctx) = retain (λ n. has_tool n v.agent.tools) ctx.tools

  chosen : List String → Result StrategyName AgentError → Result (Strategy S) AgentError
  unfolding is_react
  chosen names (err e) = err e
  chosen names (ok name) =
      if is_configured v.agent.hitl
      then if is_react name
        then ok (v.build name names)
        else err routed_strategy_does_not_support_hitl
      else ok (v.build name names)

  unfoldable pub strategy_for_invoke : String → List String → Result (Strategy S) AgentError
  unfolding chosen
  strategy_for_invoke request names = elim v.strategy_router [
    | none ↦ ok v.strategy
    | some route ↦ chosen names (route request)
  ]

  unfoldable pub strategy_for_resume : List String → Strategy S
  strategy_for_resume names =
      if is_configured v.strategy_router then v.build react names else v.strategy
