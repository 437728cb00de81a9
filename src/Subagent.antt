-- ===== src/Subagent.antt =====
-- avs-subagent: a task that an agent hands to a worker with its own tools and its own budget. Steps and
-- iterations are natural numbers; tokens are counted in 32 bits and wrap, as a release build does.
pub mod Laws
use agentverse.Base.{
  ℕ, zero, suc, ◌+◌, ◌%◌, ◌^◌, String, Bool, true, false, ◌<>◌, ◌==◌, string_eq, ltb, leb,
  if◌then◌else◌, is_empty, Option, none, some, List, [], ◌∷◌, ◌++◌, map, Result, ok, err,
}
use agentverse.Core.Error.{AgentError, ToolError, execution, model, invalid_response}
use agentverse.Core.Json.{Json, str}
use agentverse.Core.Message.{Message, system, user, text_message}
use agentverse.Core.Model.{UsageStats, GenerateResponse}
use agentverse.Core.Tool.{ToolResult}
use agentverse.Tools.Registry.{ToolRegistry, filter_by_names, tool_names}
use agentverse.Tools.Execute.{execute_many}
use agentverse.React.Cycle.{CycleAction, tool_calls, error, action_from_response}
use agentverse.React.Cycle as Cycle
use agentverse.React.Strategy.{
  Skeleton, State, prepare_buffer, push_round, invoke_with_active_tools, check_output_guardrail,
}

pub data ModelOverride : Type 0 where
  by_alias by_id : String → ModelOverride

pub record Budget : Type 0 where
  pub max_steps : ℕ
  pub max_tokens : ℕ
  pub timeout_secs : ℕ

pub record SubAgentSpec : Type 0 where
  pub name : String
  pub objective : String
  pub system_prompt : Option String
  pub model_override : Option ModelOverride
  pub allowed_tools : List String
  pub budget : Budget

pub record ResourceContent : Type 0 where
  pub label : String
  pub content : String

pub record SubAgentContext : Type 0 where
  pub resources : List ResourceContent
  pub depth : ℕ

pub record SubAgentResult : Type 0 where
  pub answer : String
  pub usage : UsageStats
  pub steps : ℕ

pub data SubAgentError : Type 0 where
  depth_exceeded : SubAgentError
  step_budget_exceeded : (steps : ℕ) → SubAgentError
  token_budget_exceeded : (used limit : ℕ) → SubAgentError
  timed_out : (elapsed : ℕ) → SubAgentError
  llm : AgentError → SubAgentError
  tool : ToolError → SubAgentError
  panic io config : String → SubAgentError

wrapping_add : ℕ → ℕ → ℕ
wrapping_add a b = (a + b) % 2 ^ 32

abbrev no_usage : UsageStats
no_usage = record {
  input_tokens = 0;
  output_tokens = 0;
  cache_write_tokens = 0;
  cache_read_tokens = 0;
}

-- `AddAssign` of `UsageStats`
unfoldable pub add_usage : UsageStats → UsageStats → UsageStats
unfolding wrapping_add
add_usage a b = record {
  input_tokens = wrapping_add a.input_tokens b.input_tokens;
  output_tokens = wrapping_add a.output_tokens b.output_tokens;
  cache_write_tokens = wrapping_add a.cache_write_tokens b.cache_write_tokens;
  cache_read_tokens = wrapping_add a.cache_read_tokens b.cache_read_tokens;
}

unfoldable pub tokens_used : UsageStats → ℕ
unfolding wrapping_add
tokens_used u = wrapping_add u.input_tokens u.output_tokens

unfoldable pub resolve_model_name : ModelOverride → String
resolve_model_name (by_id id) = id
resolve_model_name (by_alias a) =
    if a == "haiku"
    then "claude-haiku-4-5-20251001"
    else if a == "sonnet"
    then "claude-sonnet-4-6"
    else if a == "opus"
    then "claude-opus-4-8"
    else a

resource_lines : List ResourceContent → String
resource_lines [] = ""
resource_lines (r ∷ rs) =
    "\n### " <> (r.label <> ("\n" <> (r.content <> ("\n" <> resource_lines rs))))

context_text : List ResourceContent → String
unfolding resource_lines
context_text [] = ""
context_text (r ∷ rs) = "\n\n## Context\n" <> resource_lines (r ∷ rs)

system_message : Option String → List Message
system_message none = []
system_message (some t) = text_message system t ∷ []

unfoldable pub build_initial_messages : SubAgentSpec → SubAgentContext → List Message
unfolding system_message context_text
build_initial_messages spec ctx =
    system_message spec.system_prompt
    ++ text_message user ("Objective: " <> (spec.objective <> context_text ctx.resources)) ∷ []

-- what a step ends with: an outcome, or the conversation and the usage to go on with
pub data Step : Type 0 where
  ends : Result SubAgentResult SubAgentError → Step
  goes_on : List Message → UsageStats → Step

abbrev pub Work : Type 0 → Type 0
Work W = State W (Unit {0})

module _ {W : Type 0} (k : Skeleton W) where
  -- the action of a response that the guardrail let through
  unfoldable pub act :
      ℕ → List Message → UsageStats → GenerateResponse → CycleAction → Work W → Step × Work W
  unfolding push_round execute_many
  act steps buf usage response (tool_calls calls) s = (
    goes_on (push_round k buf response calls (execute_many k.completion k.tools calls)) usage,
    record s { executed = s.executed ++ calls },
  )
  act steps buf usage response (Cycle.done answer) s =
      (ends (ok (record { answer = answer; usage = usage; steps = steps })), s)
  act steps buf usage response (error message) s =
      (ends (err (llm (model (invalid_response message)))), s)

  guarded :
      ℕ → List Message → UsageStats → Result GenerateResponse AgentError × Work W → Step × Work W
  unfolding act action_from_response
  guarded steps buf usage (err e, s) = (ends (err (llm e)), s)
  guarded steps buf usage (ok response, s) =
      act steps buf usage response (action_from_response k.is_blank response) s

  -- the usage of a response counts before the guardrail sees it
  on_response :
      ℕ → List Message → UsageStats → Result GenerateResponse AgentError × Work W → Step × Work W
  unfolding guarded add_usage check_output_guardrail
  on_response steps buf usage (err e, s) = (ends (err (llm e)), s)
  on_response steps buf usage (ok response, s) =
      guarded steps buf (add_usage usage response.usage) (check_output_guardrail k (ok response, s))

  unfoldable pub step : ℕ → List Message → UsageStats → Work W → Step × Work W
  unfolding on_response invoke_with_active_tools tool_names
  step steps buf usage s =
      on_response steps buf usage (invoke_with_active_tools k buf (tool_names k.tools) s)

  -- one turn of the loop, `again` being its next turn
  unfoldable pub turn :
      (List Message → UsageStats → Work W → Result SubAgentResult SubAgentError × Work W)
      → Step × Work W
      → Result SubAgentResult SubAgentError × Work W
  turn again (ends r, s) = (r, s)
  turn again (goes_on buf usage, s) = again buf usage s

  -- the loop, on the steps that are left; `steps` have been taken
  unfoldable pub run_from :
      Budget
      → ℕ
      → ℕ
      → List Message
      → UsageStats
      → Work W
      → Result SubAgentResult SubAgentError × Work W
  unfolding tokens_used
  run_from budget zero steps buf usage s =
      if ltb budget.max_tokens (tokens_used usage)
      then (err (token_budget_exceeded (tokens_used usage) budget.max_tokens), s)
      else (err (step_budget_exceeded steps), s)
  run_from budget (suc left) steps buf usage s = elim (ltb budget.max_tokens (tokens_used usage)) [
    | true ↦ (err (token_budget_exceeded (tokens_used usage) budget.max_tokens), s)
    | false ↦ turn (λ b u t. run_from budget left (suc steps) b u t) (step (suc steps) buf usage s)
  ]

  unfoldable pub run_cycle :
      List Message → Budget → Work W → Result SubAgentResult SubAgentError × Work W
  unfolding run_from prepare_buffer
  run_cycle messages budget s =
      run_from budget budget.max_steps 0 (prepare_buffer k messages) no_usage s

pub record Executor (W : Type 0) : Type 0 where
  pub parent_tools : ToolRegistry
  pub tokenize : String → List String
  pub max_depth : ℕ
  -- the skeleton on the connection of a model, on the parent's own where none is named
  pub connect : Option String → Result (Skeleton W) AgentError
  -- `tokio::time::timeout`: the time that went by and what was done, where the budget's seconds end first
  pub expires : ℕ → State W (Unit {0}) → Option (ℕ × State W (Unit {0}))

module _ {W : Type 0} (executor : Executor W) where
  scoped : SubAgentSpec → Skeleton W → Skeleton W
  unfolding filter_by_names
  scoped spec k = record k {
    tools = filter_by_names executor.tokenize spec.allowed_tools executor.parent_tools;
    max_iterations = spec.budget.max_steps;
  }

  within :
      Option (ℕ × Work W)
      → Result SubAgentResult SubAgentError × Work W
      → Result SubAgentResult SubAgentError × Work W
  within none r = r
  within (some (elapsed, t)) r = (err (timed_out elapsed), t)

  model_name : Option ModelOverride → Option String
  unfolding resolve_model_name
  model_name none = none
  model_name (some m) = some (resolve_model_name m)

  connected :
      SubAgentSpec
      → SubAgentContext
      → Result (Skeleton W) AgentError
      → Work W
      → Result SubAgentResult SubAgentError × Work W
  unfolding within run_cycle scoped build_initial_messages
  connected spec ctx (err e) s = (err (llm e), s)
  connected spec ctx (ok k) s =
      within (executor.expires spec.budget.timeout_secs s)
        (run_cycle (scoped spec k) (build_initial_messages spec ctx) spec.budget s)

  unfoldable pub run :
      SubAgentSpec → SubAgentContext → Work W → Result SubAgentResult SubAgentError × Work W
  unfolding connected model_name
  run spec ctx s =
      if leb executor.max_depth ctx.depth
      then (err depth_exceeded, s)
      else connected spec ctx (executor.connect (model_name spec.model_override)) s
