-- ===== src/Agent/Types.antt =====
-- The types of avs-agent/src/agent/mod.rs. The store (a trait), the strategy (a trait), the skill registry and the
-- encodings of serde_json are the fields of `Agent`, over one state `S`.
use agentverse.Base.{ℕ, String, Bool, string_eq, nat_eq, Option, none, some, List, Result, ok, err}
use agentverse.Core.Json.{Json}
use agentverse.Core.Error as Core
use agentverse.Core.Error.{ToolError}
use agentverse.Core.Message.{Message}
use agentverse.Core.Tool.{ToolCall}
use agentverse.Core.Strategy.{ApprovalId, StrategyOutcome}
use agentverse.Hitl.Types.{InterruptKind}
use agentverse.Hitl.Policy.{HitlPolicy}
use agentverse.Hitl.Context.{HitlContext}
use agentverse.Memory.Session.Types.{SessionStatus, Session, SessionMemoryError, InterruptedState}
use agentverse.Tools.Registry.{ToolRegistry}
use agentverse.Tools.Execute.{Joined}

pub record PhaseTransition : Type 0 where
  pub next_skill : String
  pub summary : String
  pub deliverable : String

pub data AgentOutput : Type 0 where
  finished : String → AgentOutput
  waiting : ApprovalId → InterruptKind → AgentOutput

-- avs-router/src/router.rs
pub data StrategyName : Type 0 where
  react plan_and_execute hierarchical : StrategyName

pub data AgentError : Type 0 where
  session : SessionMemoryError → AgentError
  llm : Core.AgentError → AgentError
  skill json : String → AgentError
  incompatible_persisted_interrupt routed_strategy_does_not_support_hitl : AgentError

-- `C` is the compiled context of a skill.
pub record Agent (S C : Type 0) : Type 0 where
  pub get : ℕ → S → Result (Option Session) SessionMemoryError
  pub get_interrupted_state : ℕ → S → Result (Option String) SessionMemoryError
  pub set_interrupted_state : ℕ → Option String → S → Result (Unit {0}) SessionMemoryError × S
  pub update_status : ℕ → SessionStatus → S → Result (Unit {0}) SessionMemoryError × S
  pub apply_phase_transition : ℕ → String → String → S → Result (Unit {0}) SessionMemoryError × S
  pub run_with_active_tools :
      List Message → List String → S → Result StrategyOutcome Core.AgentError × S
  pub run_hitl :
      List Message → List String → HitlContext → S → Result StrategyOutcome Core.AgentError × S
  pub compile_context : Option (String → Result String AgentError)
  pub hitl : Option HitlPolicy
  pub tokenize : String → List String
  pub tools : ToolRegistry
  pub has_router : Bool
  pub completion : List Joined → List Joined
  pub show_value : Json → String
  pub show_error : ToolError → String
  pub show_id : ApprovalId → String
  pub to_state_json : InterruptedState → String
  pub of_state_json : String → Result InterruptedState String
  pub to_history_json : List Message → String
  pub of_history_json : String → Result (List Message) String
  pub to_calls_json : List ToolCall → String
  pub of_calls_json : String → Result (List ToolCall) String
  pub of_kind_json : String → Result InterruptKind String
  pub of_transition_json : String → Result PhaseTransition String
  pub skill_id : C → String
  pub to_skill_json : C → Option String
  pub of_skill_json : String → Option C

-- what a suspended session is resumed with
pub data Plan : Type 0 where
  gate : (transition_json : String) → Plan
  pending_turn :
      (active_tool_names : List String) (skill_context_json : Option String)
      (history : List Message) (pending : List ToolCall)
      → Plan

abbrev pub Outcome : Type 0 → Type 0
Outcome S = Result AgentOutput AgentError × S

-- `?` behind a call of the store
unfoldable pub after :
    {S : Type 0} → Result (Unit {0}) SessionMemoryError × S → (S → Outcome S) → Outcome S
after (ok u, s) next = next s
after (err e, s) next = (err (session e), s)

-- `and_then` and `map` of an option
unfoldable pub and_then : {A B : Type 0} → Option A → (A → Option B) → Option B
and_then none f = none
and_then (some t) f = f t
