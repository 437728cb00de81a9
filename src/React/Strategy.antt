-- ===== src/React/Strategy.antt =====
-- `ReActStrategy` of avs-react/src/react.rs: the loop of model calls and tool calls, without and with
-- the hook. A turn of the loop is a function, and the loop recurses on the iterations that are left.
pub mod Loop
use agentverse.Base.{
  ℕ, zero, suc, String, Bool, true, false, not, ◌<>◌, ◌&&◌, ◌||◌, ◌==◌, string_eq, if◌then◌else◌,
  Option, none, some, List, [], ◌∷◌, ◌++◌, map, any, contains, is_empty, join, Result, ok, err,
}
use agentverse.Core.Json.{Json}
use agentverse.Core.Error.{ToolError, AgentError, model, config, invalid, timeout, invalid_response}
use agentverse.Core.Message.{
  ContentBlock, Message, MessageRole, user, assistant, tool, text_message,
}
use agentverse.Core.Model.{ToolDefinition, GenerateResponse, response_as_text}
use agentverse.Core.Tool.{ToolCall, ToolCallResult}
use agentverse.Core.Strategy.{StrategyOutcome, done, interrupted}
use agentverse.Tools.Registry.{ToolRegistry, tool_definitions_for, tool_names}
use agentverse.Tools.Execute.{
  Joined, HitlHook, HitlInterruptResult, execute_many, execute_many_hitl,
}
use agentverse.Guardrails.Patterns.{GuardrailError, check_output, agent_error}
use agentverse.React.Cycle
use agentverse.React.Cycle.{
  CycleAction, tool_calls, error, action_from_response, reconcile_and_order_results,
  results_to_tool_result_blocks,
}
use agentverse.React.Cycle.Results.{order_of}

-- `CycleSkeleton`, with what it takes from outside: the runner over a state `W`, the schema
-- rewriting, the order in which tasks end, the templates, the regular expressions and the texts.
pub record Skeleton (W : Type 0) : Type 0 where
  pub invoke_inner :
      List Message → Option (List ToolDefinition) → W → Result GenerateResponse AgentError × W
  pub tools : ToolRegistry
  pub max_iterations : ℕ
  pub to_strict_schema : Json → Result Json String
  pub completion : List Joined → List Joined
  pub is_blank : String → Bool
  pub has_react_template : Bool
  pub preamble : Option String
  pub is_match : String → String → Bool
  pub show_value : Json → String
  pub show_error : ToolError → String
  pub show_count : ℕ → String

-- What a run changes, with the logs of what it asked the model and which calls it ran.
pub record State (W Q : Type 0) : Type 0 where
  pub world : W
  pub queue : Q
  pub requests : List (List Message)
  pub executed : List ToolCall

pub data Turn (A : Type 0) : Type 0 where
  finish : Result StrategyOutcome AgentError → Turn A
  again : A → Turn A

module _ {W : Type 0} (k : Skeleton W) where
  unfoldable pub prepare_buffer : List Message → List Message
  prepare_buffer = Cycle.prepare_buffer k.is_blank k.has_react_template k.preamble

  -- the assistant turn, and the turn with the results of its calls
  unfoldable pub push_round :
      List Message → GenerateResponse → List ToolCall → List ToolCallResult → List Message
  push_round buf response calls results =
      buf
      ++ record { role = assistant; content = response.content }
        ∷ record {
          role = tool;
          content =
              results_to_tool_result_blocks k.show_value k.show_error
                (reconcile_and_order_results results (order_of calls));
        }
        ∷ []

on_check : GenerateResponse → Option GuardrailError → Result GenerateResponse AgentError
on_check response none = ok response
on_check response (some g) = err (agent_error g)

module _ {W Q : Type 0} (k : Skeleton W) where
  ask :
      List Message
      → Option (List ToolDefinition)
      → State W Q
      → Result GenerateResponse AgentError × State W Q
  ask messages definitions s =
      let (r, w) = k.invoke_inner messages definitions s.world in
      (r, record s { world = w; requests = s.requests ++ messages ∷ [] })

  invoke_defined :
      List Message
      → Result (List ToolDefinition) String
      → State W Q
      → Result GenerateResponse AgentError × State W Q
  unfolding ask
  invoke_defined messages (err e) s =
      (err (config (invalid ("invalid tool schema for active tools: " <> e))), s)
  invoke_defined messages (ok []) s = ask messages none s
  invoke_defined messages (ok (d ∷ ds)) s = ask messages (some (d ∷ ds)) s

  unfoldable pub invoke_with_active_tools :
      List Message → List String → State W Q → Result GenerateResponse AgentError × State W Q
  unfolding invoke_defined
  invoke_with_active_tools messages names s =
      invoke_defined messages (tool_definitions_for k.to_strict_schema k.tools names) s

  unfoldable pub check_output_guardrail :
      Result GenerateResponse AgentError × State W Q
      → Result GenerateResponse AgentError × State W Q
  unfolding on_check
  check_output_guardrail (err e, s) = (err e, s)
  check_output_guardrail (ok response, s) =
      (on_check response (check_output k.is_match (response_as_text response)), s)

  unfoldable pub act :
      List Message → GenerateResponse → CycleAction → State W Q → Turn (List Message) × State W Q
  unfolding push_round
  act buf response (tool_calls calls) s = (
    again (push_round k buf response calls (execute_many k.completion k.tools calls)),
    record s { executed = s.executed ++ calls },
  )
  act buf response (CycleAction.done answer) s = (finish (ok (done answer)), s)
  act buf response (error message) s = (finish (err (model (invalid_response message))), s)

  unfoldable pub on_response :
      List Message
      → Result GenerateResponse AgentError × State W Q
      → Turn (List Message) × State W Q
  unfolding act
  on_response buf (err e, s) = (finish (err e), s)
  on_response buf (ok response, s) = act buf response (action_from_response k.is_blank response) s

  unfoldable pub turn : List String → List Message → State W Q → Turn (List Message) × State W Q
  unfolding on_response check_output_guardrail
  turn names buf s = on_response buf (check_output_guardrail (invoke_with_active_tools buf names s))

  unfoldable pub loop :
      {A : Type 0}
      → (A → State W Q → Turn A × State W Q)
      → ℕ
      → A
      → State W Q
      → Result StrategyOutcome AgentError × State W Q
  loop step zero a s = (
    err (model (timeout ("Max iterations (" <> (k.show_count k.max_iterations <> ") reached")))),
    s,
  )
  loop step (suc left) a s = elim (step a s).0 [
    | finish r ↦ (r, (step a s).1)
    | again a' ↦ loop step left a' (step a s).1
  ]

  unfoldable pub run_with_active_tools :
      List Message → List String → State W Q → Result StrategyOutcome AgentError × State W Q
  run_with_active_tools messages names =
      loop (turn names) k.max_iterations (prepare_buffer k messages)

  unfoldable pub run : List Message → State W Q → Result StrategyOutcome AgentError × State W Q
  run messages = run_with_active_tools messages (tool_names k.tools)
