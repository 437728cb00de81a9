-- ===== src/Agent/Calls.antt =====
-- avs-agent/src/agent/resume.rs: how a run is suspended for an approval, and how its pending calls are
-- taken up with a decision.
use agentverse.Base.{
  ℕ, String, ◌<>◌, string_eq, nat_eq, if◌then◌else◌, Option, none, some, List, [], ◌∷◌, ◌++◌, join,
  Result, ok, err,
}
use agentverse.Core.Error as Core
use agentverse.Core.Error.{ToolError}
use agentverse.Core.Message.{Message, user, text_message}
use agentverse.Core.Tool.{ToolCall, ToolCallResult, ToolResult}
use agentverse.Core.Strategy.{HitlInterrupt, StrategyOutcome, done, interrupted}
use agentverse.Hitl.Types.{
  InterruptKind, tool_approval, phase_gate, skill_checkpoint, ApprovalDecision, approved, rejected,
  modified,
}
use agentverse.Hitl.Policy.{HitlPolicy}
use agentverse.Hitl.Context
use agentverse.Hitl.Context.{HitlContext}
use agentverse.Tools.Registry.{ToolRegistry, restricted_to_names}
use agentverse.Tools.Execute.{execute_many}
use agentverse.Memory.Session.Types.{
  suspended, InterruptedState, pending_tool_call, pending_checkpoint,
}
use agentverse.Agent.Types.{finished, waiting, llm, Agent, Outcome, after, and_then}

module _ {S C : Type 0} (a : Agent S C) where
  unfoldable pub state_of : HitlInterrupt → Option C → InterruptKind → InterruptedState
  unfolding and_then
  state_of i skill_ctx (skill_checkpoint name payload) =
      pending_checkpoint (a.show_id i.approval_id) i.kind_json (a.to_history_json i.history)
        i.active_tool_names (and_then skill_ctx a.to_skill_json)
  state_of i skill_ctx (tool_approval name args) =
      pending_tool_call (a.show_id i.approval_id) i.kind_json (a.to_history_json i.history)
        (a.to_calls_json i.pending_calls) i.active_tool_names (and_then skill_ctx a.to_skill_json)
  state_of i skill_ctx (phase_gate from to deliverable) =
      pending_tool_call (a.show_id i.approval_id) i.kind_json (a.to_history_json i.history)
        (a.to_calls_json i.pending_calls) i.active_tool_names (and_then skill_ctx a.to_skill_json)

  suspend_as : ℕ → HitlInterrupt → Option C → Result InterruptKind String → S → Outcome S
  unfolding state_of after
  suspend_as session_id i skill_ctx (err e) s =
      (err (llm (Core.memory ("bad HITL kind_json: " <> e))), s)
  suspend_as session_id i skill_ctx (ok kind) s =
      after
        (a.set_interrupted_state session_id (some (a.to_state_json (state_of i skill_ctx kind))) s)
        (λ t.
          after (a.update_status session_id suspended t)
            (λ u. (ok (waiting i.approval_id kind), u)))

  unfoldable pub handle_tool_interrupt : ℕ → HitlInterrupt → Option C → S → Outcome S
  unfolding suspend_as
  handle_tool_interrupt session_id i skill_ctx s =
      suspend_as session_id i skill_ctx (a.of_kind_json i.kind_json) s

  shown : ToolResult → String
  shown (ok v) = a.show_value v
  shown (err e) = "Error: " <> a.show_error e

  result_line : ToolCallResult → String
  unfolding shown
  result_line r = "Tool: " <> (r.name <> ("\nResult: " <> shown r.result))

  result_lines : List ToolCallResult → List String
  unfolding result_line
  result_lines [] = []
  result_lines (r ∷ rs) = result_line r ∷ result_lines rs

  rejected_lines : String → List ToolCall → List String
  rejected_lines reason [] = []
  rejected_lines reason (c ∷ calls) =
      ("Tool: " <> (c.name <> ("\nResult: Rejected by approver: " <> reason)))
      ∷ rejected_lines reason calls

  unfoldable pub observation : ToolRegistry → ApprovalDecision → List ToolCall → String
  unfolding result_lines rejected_lines join execute_many
  observation tools approved [] = "Checkpoint approved. Continue."
  observation tools approved (c ∷ calls) =
      join "\n\n" (result_lines (execute_many a.completion tools (c ∷ calls)))
  observation tools (modified new_args) [] = "No tool calls to modify."
  observation tools (modified new_args) (c ∷ calls) =
      join "\n\n"
        (result_lines (execute_many a.completion tools (record c { args = new_args } ∷ [])))
  observation tools (rejected reason) [] =
      "Checkpoint rejected: " <> (reason <> ". Revise and resubmit.")
  observation tools (rejected reason) (c ∷ calls) = join "\n\n" (rejected_lines reason (c ∷ calls))

  unfoldable pub execution_tools : List String → ToolRegistry
  unfolding restricted_to_names
  execution_tools names =
      if a.has_router then restricted_to_names a.tokenize names a.tools else a.tools

  run_again :
      Option HitlPolicy
      → ℕ
      → Option String
      → List Message
      → List String
      → S
      → Result StrategyOutcome Core.AgentError × S
  run_again none session_id skill_id messages names s = a.run_with_active_tools messages names s
  run_again (some policy) session_id skill_id messages names s =
      a.run_hitl messages names (Context.new_for_resume session_id skill_id policy) s

  on_result : ℕ → Option C → Result StrategyOutcome Core.AgentError × S → Outcome S
  unfolding handle_tool_interrupt
  on_result session_id skill_ctx (ok (done t), s) = (ok (finished t), s)
  on_result session_id skill_ctx (ok (interrupted i), s) =
      handle_tool_interrupt session_id i skill_ctx s
  on_result session_id skill_ctx (err e, s) = (err (llm e), s)

  -- `resume_tool_call_or_checkpoint`, with the parts of the state that it takes
  unfoldable pub resume_calls :
      ℕ
      → List String
      → Option String
      → ApprovalDecision
      → List Message
      → List ToolCall
      → S
      → Outcome S
  unfolding on_result run_again observation execution_tools and_then
  resume_calls session_id names skill_json decision history pending s =
      let skill_ctx = and_then skill_json a.of_skill_json in
      on_result session_id skill_ctx (
        run_again a.hitl session_id (and_then skill_ctx (λ c. some (a.skill_id c)))
          (history ++ text_message user (observation (execution_tools names) decision pending) ∷ [])
          names s)
