-- ===== src/Agent/Resume.antt =====
-- `resume` of avs-agent/src/agent/resume.rs, with its checks before anything is changed.
pub mod Laws
use agentverse.Base.{
  ℕ, String, Bool, true, false, ◌<>◌, ◌==◌, string_eq, nat_eq, if◌then◌else◌, Option, none, some,
  List, [], ◌∷◌, ◌++◌, map, join, Result, ok, err,
}
use agentverse.Core.Json.{Json}
use agentverse.Core.Error as Core
use agentverse.Core.Error.{ToolError}
use agentverse.Core.Message.{Message, user, text_message}
use agentverse.Core.Tool.{ToolCall, ToolCallResult, ToolResult}
use agentverse.Core.Strategy.{ApprovalId, HitlInterrupt, StrategyOutcome, done, interrupted}
use agentverse.Hitl.Types.{
  InterruptKind, tool_approval, phase_gate, skill_checkpoint, ApprovalDecision, approved, rejected,
  modified,
}
use agentverse.Hitl.Policy.{HitlPolicy}
use agentverse.Hitl.Context
use agentverse.Hitl.Context.{HitlContext}
use agentverse.Tools.Registry.{ToolRegistry, restricted_to_names}
use agentverse.Tools.Execute.{Joined, execute_many}
use agentverse.Memory.Session.Types.{
  SessionStatus, active, suspended, completed, Session, SessionMemoryError, not_found, database,
  InterruptedState, pending_tool_call, pending_phase_gate, pending_checkpoint, approval_id_str,
}
use agentverse.Agent.Types.{
  PhaseTransition, AgentOutput, finished, waiting, AgentError, session, llm, skill, json,
  incompatible_persisted_interrupt, Agent, Plan, gate, pending_turn, Outcome, after, and_then,
}
use agentverse.Agent.Calls.{resume_calls}

module _ {S C : Type 0} (a : Agent S C) where
  unfoldable pub enter_skill :
      ℕ → PhaseTransition → Option (String → Result String AgentError) → S → Outcome S
  unfolding after
  enter_skill session_id t none s = (err (skill "no skills configured"), s)
  enter_skill session_id t (some compile) s = elim (compile t.next_skill) [
    | err e ↦ (err e, s)
    | ok new_ctx_json ↦
        after
          (a.apply_phase_transition session_id new_ctx_json
            ("Context from previous phase: " <> t.summary) s)
          (λ u. (ok (finished ("Phase transition to " <> (t.next_skill <> " approved."))), u))
  ]

  unfoldable pub take_phase : ℕ → Result PhaseTransition String → S → Outcome S
  unfolding enter_skill
  take_phase session_id (err e) s = (err (json e), s)
  take_phase session_id (ok t) s = enter_skill session_id t a.compile_context s

  unfoldable pub resume_phase_gate : ℕ → String → ApprovalDecision → S → Outcome S
  unfolding take_phase
  resume_phase_gate session_id transition_json approved s =
      take_phase session_id (a.of_transition_json transition_json) s
  resume_phase_gate session_id transition_json (modified new_args) s =
      take_phase session_id (a.of_transition_json transition_json) s
  resume_phase_gate session_id transition_json (rejected reason) s =
      (ok (finished ("Phase transition rejected: " <> reason)), s)

  owned :
      String → ℕ → Result (Option Session) SessionMemoryError → Result (Unit {0}) SessionMemoryError
  owned user_id session_id (err e) = err e
  owned user_id session_id (ok none) = err (not_found session_id)
  owned user_id session_id (ok (some session')) =
      if session'.user_id == user_id then ok tt else err (not_found session_id)

  -- `SessionManager::assert_owner`
  unfoldable pub assert_owner : String → ℕ → S → Result (Unit {0}) SessionMemoryError
  unfolding owned
  assert_owner user_id session_id s = owned user_id session_id (a.get session_id s)

  parsed :
      Result (List Message) String
      → Result (List ToolCall) String
      → Result (List Message × List ToolCall) AgentError
  parsed (err e) pending = err incompatible_persisted_interrupt
  parsed (ok history) (err e) = err incompatible_persisted_interrupt
  parsed (ok history) (ok pending) = ok (history, pending)

  unfoldable pub parse_resume_payload :
      String → String → Result (List Message × List ToolCall) AgentError
  unfolding parsed
  parse_resume_payload history_json pending_calls_json =
      parsed (a.of_history_json history_json) (a.of_calls_json pending_calls_json)

  -- what a state that is read back asks for
  with_payload :
      List String
      → Option String
      → Result (List Message × List ToolCall) AgentError
      → Result Plan AgentError
  with_payload names c (err e) = err e
  with_payload names c (ok (history, pending)) = ok (pending_turn names c history pending)

  unfoldable pub plan_of : InterruptedState → Result Plan AgentError
  unfolding with_payload parse_resume_payload
  plan_of (pending_tool_call i k h p names c) = with_payload names c (parse_resume_payload h p)
  plan_of (pending_checkpoint i k h names c) = with_payload names c (parse_resume_payload h "[]")
  plan_of (pending_phase_gate i t) = ok (gate t)

  unfoldable pub carry_out : ℕ → ApprovalDecision → Plan → S → Outcome S
  unfolding resume_calls resume_phase_gate
  carry_out session_id decision (gate t) s = resume_phase_gate session_id t decision s
  carry_out session_id decision (pending_turn names c history pending) s =
      resume_calls a session_id names c decision history pending s

  -- the state is cleared and the session active before the plan is carried out
  unfoldable pub proceed : ℕ → ApprovalDecision → Plan → S → Outcome S
  unfolding carry_out after
  proceed session_id decision plan s =
      after (a.set_interrupted_state session_id none s)
        (λ t. after (a.update_status session_id active t) (carry_out session_id decision plan))

  unfoldable pub proceed_if : ℕ → ApprovalDecision → Result Plan AgentError → S → Outcome S
  unfolding proceed
  proceed_if session_id decision (err e) s = (err e, s)
  proceed_if session_id decision (ok plan) s = proceed session_id decision plan s

  unfoldable pub resume_state :
      ℕ → ApprovalId → ApprovalDecision → Result InterruptedState String → S → Outcome S
  unfolding proceed_if plan_of
  resume_state session_id approval_id decision (err e) s = (err (json e), s)
  resume_state session_id approval_id decision (ok state) s =
      if approval_id_str state == a.show_id approval_id
      then proceed_if session_id decision (plan_of state) s
      else (
        err (
            llm (
              Core.memory (
                "approval_id mismatch: expected "
                <> (approval_id_str state <> (", got " <> a.show_id approval_id))))),
        s,
      )

  unfoldable pub resume_found :
      ℕ → ApprovalId → ApprovalDecision → Result (Option String) SessionMemoryError → S → Outcome S
  unfolding resume_state
  resume_found session_id approval_id decision (err e) s = (err (session e), s)
  resume_found session_id approval_id decision (ok none) s =
      (err (session (not_found session_id)), s)
  resume_found session_id approval_id decision (ok (some state_json)) s =
      resume_state session_id approval_id decision (a.of_state_json state_json) s

  unfoldable pub resume_owned :
      ℕ → ApprovalId → ApprovalDecision → Result (Unit {0}) SessionMemoryError → S → Outcome S
  unfolding resume_found
  resume_owned session_id approval_id decision (err e) s = (err (session e), s)
  resume_owned session_id approval_id decision (ok u) s =
      resume_found session_id approval_id decision (a.get_interrupted_state session_id s) s

  unfoldable pub resume : String → ℕ → ApprovalId → ApprovalDecision → S → Outcome S
  unfolding resume_owned assert_owner
  resume user_id session_id approval_id decision s =
      resume_owned session_id approval_id decision (assert_owner user_id session_id s) s
