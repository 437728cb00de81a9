-- ===== src/React/Hitl.antt =====
-- `run_hitl` of avs-react/src/react.rs: the loop with the hook.
pub mod Turns
pub mod Quiet
pub mod Approval
pub mod Pairing
pub mod Laws
use agentverse.Base.{
  ℕ, zero, suc, String, Bool, true, false, not, ◌<>◌, ◌&&◌, ◌||◌, ◌==◌, string_eq, if◌then◌else◌,
  Option, none, some, List, [], ◌∷◌, ◌++◌, any, contains, is_empty, join, Result, ok, err,
}
use agentverse.Core.Error.{AgentError, model, invalid_response}
use agentverse.Core.Message.{Message, MessageRole, user, assistant, text_message}
use agentverse.Core.Model.{GenerateResponse}
use agentverse.Core.Tool.{ToolCall, ToolCallResult}
use agentverse.Core.Strategy.{StrategyOutcome, done, interrupted}
use agentverse.Tools.Execute.{HitlHook, HitlInterruptResult, execute_many_hitl}
use agentverse.React.Cycle
use agentverse.React.Cycle.{CycleAction, tool_calls, error, action_from_response}
use agentverse.React.Strategy.{
  Skeleton, State, Turn, finish, again, prepare_buffer, push_round, invoke_with_active_tools,
  check_output_guardrail, loop,
}

-- `required_tools.contains(&c.name)`
abbrev pub calls_required : List String → List ToolCall → Bool
calls_required required calls = any (λ c. contains required c.name) calls

-- what is said to a model that wants to finish too early
unfoldable pub retry_text : List String → String
unfolding join
retry_text required =
    "You did not call the required tool ("
    <> (join ", " required
        <> ") before answering. This step requires human approval — you must call it before you can finish. Call it now.")

unfoldable pub push_retry : List Message → GenerateResponse → List String → List Message
unfolding retry_text
push_retry buf response required =
    buf
    ++ record { role = assistant; content = response.content }
      ∷ text_message user (retry_text required)
      ∷ []

-- what the loop carries: the messages, and `required_tool_called`
abbrev pub Carried : Type 0
Carried = List Message × Bool

module _ {W Q : Type 0} (k : Skeleton W) (hook : HitlHook Q) (names : List String) where
  on_executed :
      List Message
      → Bool
      → GenerateResponse
      → List ToolCall
      → State W Q
      → Result (List ToolCallResult) HitlInterruptResult × Q × List ToolCall
      → Turn Carried × State W Q
  unfolding push_round
  on_executed buf called response calls s (ok results, q, dispatched) = (
    again (push_round k buf response calls results, called),
    record s { queue = q; executed = s.executed ++ dispatched },
  )
  on_executed buf called response calls s (err i, q, dispatched) = (
    finish (
        ok (
          interrupted (record {
            approval_id = i.approval_id;
            kind_json = i.kind_json;
            history = buf;
            pending_calls = calls;
            active_tool_names = names;
          }))),
    record s { queue = q; executed = s.executed ++ dispatched },
  )

  act : List Message → Bool → GenerateResponse → CycleAction → State W Q → Turn Carried × State W Q
  unfolding on_executed push_retry
  act buf called response (tool_calls calls) s =
      on_executed buf (called || calls_required hook.required_tool_names calls) response calls s
        (execute_many_hitl hook k.completion k.tools calls s.queue)
  act buf called response (CycleAction.done answer) s =
      if called
      then (finish (ok (done answer)), s)
      else (again (push_retry buf response hook.required_tool_names, called), s)
  act buf called response (error message) s = (finish (err (model (invalid_response message))), s)

  on_response :
      List Message
      → Bool
      → Result GenerateResponse AgentError × State W Q
      → Turn Carried × State W Q
  unfolding act
  on_response buf called (err e, s) = (finish (err e), s)
  on_response buf called (ok response, s) =
      act buf called response (action_from_response k.is_blank response) s

  unfoldable pub hitl_turn : Carried → State W Q → Turn Carried × State W Q
  unfolding on_response
  hitl_turn (buf, called) s =
      on_response buf called (check_output_guardrail k (invoke_with_active_tools k buf names s))

  unfoldable pub run_hitl : List Message → State W Q → Result StrategyOutcome AgentError × State W Q
  unfolding prepare_buffer hitl_turn loop
  run_hitl messages =
      loop k hitl_turn k.max_iterations
        (prepare_buffer k messages, is_empty hook.required_tool_names)
