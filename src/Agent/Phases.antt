-- ===== src/Agent/Phases.antt =====
-- avs-agent/src/agent/routing.rs: how the output of a skill names the next one, and how a session moves
-- on, at once or behind an approval. The warnings of the log are left out.
pub mod Gate
pub mod Laws
use agentverse.Base.{
  ℕ, String, Bool, true, false, ◌<>◌, ◌==◌, string_eq, nat_eq, if◌then◌else◌, Option, none, some,
  List, [], ◌∷◌, join, Result, ok, err,
}
use agentverse.Base.Text.{trim, trim_end, is_blank, strip_prefix, lines, reverse_onto}
use agentverse.Core.Strategy.{ApprovalId}
use agentverse.Hitl.Types.{InterruptKind, phase_gate, ApprovalRequest, new_request, HitlError}
use agentverse.Hitl.Policy.{HitlPolicy, requires_phase_gate}
use agentverse.Memory.Session.Types.{
  SessionMemoryError, database, suspended, InterruptedState, pending_phase_gate,
}
use agentverse.Agent.Types.{PhaseTransition, AgentError, session, skill, Agent, and_then}
use agentverse.Agent.Resume.{assert_owner}

-- the lines of a text from the last to the first, less the blank ones in front
unfoldable pub drop_blank : List String → List String
unfolding is_blank
drop_blank [] = []
drop_blank (l ∷ ls) = let rest = drop_blank ls in if is_blank l then rest else l ∷ ls

-- what stands behind a directive on a line
directive : String → String → Option String
unfolding strip_prefix trim
directive name line = elim (strip_prefix name (trim line)) [
  | none ↦ none
  | some t ↦ if trim t == "" then none else some (trim t)
]

with_body : String → String → List String → Option PhaseTransition
unfolding drop_blank reverse_onto is_blank
with_body next_skill summary body =
    let deliverable = join "\n" (reverse_onto (drop_blank body) []) in
    if is_blank deliverable
    then none
    else some (record { next_skill = next_skill; summary = summary; deliverable = deliverable })

with_summary : Option String → List String → Option PhaseTransition
unfolding directive with_body
with_summary none rest = none
with_summary (some summary) [] = none
with_summary (some summary) (l ∷ rest) = elim (directive "NEXT_SKILL:" l) [
  | none ↦ none
  | some next_skill ↦ with_body next_skill summary rest
]

-- the lines from the last to the first
unfoldable pub parse_lines : List String → Option PhaseTransition
unfolding with_summary directive drop_blank
parse_lines [] = none
parse_lines (l ∷ []) = none
parse_lines (l ∷ m ∷ rest) = with_summary (directive "SUMMARY:" l) (drop_blank (m ∷ rest))

unfoldable pub parse_phase_transition : String → Option PhaseTransition
unfolding parse_lines drop_blank lines trim_end reverse_onto
parse_phase_transition output = parse_lines (drop_blank (reverse_onto (lines (trim_end output)) []))

pub data PhaseAdvanceResult : Type 0 where
  advanced : PhaseTransition → PhaseAdvanceResult
  awaiting : ApprovalId → PhaseAdvanceResult

-- what an agent moves on with, next to what it resumes with
pub record Phases (S C : Type 0) : Type 0 where
  pub agent : Agent S C
  pub get_skill_context : ℕ → S → Result (Option String) SessionMemoryError
  pub submit : ApprovalRequest → S → Result ApprovalId HitlError × S
  pub show_hitl_error : HitlError → String
  pub to_transition_json : PhaseTransition → String

abbrev pub Advance : Type 0 → Type 0
Advance S = Result (Option PhaseAdvanceResult) AgentError × S

unfoldable pub then_store :
    {S : Type 0} → Result (Unit {0}) SessionMemoryError × S → (S → Advance S) → Advance S
then_store (ok u, s) next = next s
then_store (err e, s) next = (err (session e), s)

module _ {S C : Type 0} (p : Phases S C) where
  abbrev pub gate_state : ApprovalId → PhaseTransition → InterruptedState
  gate_state id t = pending_phase_gate (p.agent.show_id id) (p.to_transition_json t)

  -- the session waits for the approval that was submitted
  unfoldable pub suspend_at_gate : ℕ → PhaseTransition → Result ApprovalId HitlError × S → Advance S
  unfolding then_store
  suspend_at_gate session_id t (err e, s) = (err (session (database (p.show_hitl_error e))), s)
  suspend_at_gate session_id t (ok id, s) =
      then_store
        (p.agent.set_interrupted_state session_id (some (p.agent.to_state_json (gate_state id t)))
          s)
        (λ u.
          then_store (p.agent.update_status session_id suspended u)
            (λ v. (ok (some (awaiting id)), v)))

  unfoldable pub compiled : ℕ → PhaseTransition → Result String AgentError → S → Advance S
  unfolding then_store
  compiled session_id t (err e) s = (err e, s)
  compiled session_id t (ok new_ctx_json) s =
      then_store
        (p.agent.apply_phase_transition session_id new_ctx_json
          ("Context from previous phase: " <> t.summary) s)
        (λ u. (ok (some (advanced t)), u))

  unfoldable pub apply_transition : ℕ → PhaseTransition → S → Advance S
  unfolding compiled
  apply_transition session_id t s = elim p.agent.compile_context [
    | none ↦ (err (skill "no skill registry configured on this agent"), s)
    | some compile ↦ compiled session_id t (compile t.next_skill) s
  ]

  unfoldable pub gated :
      ApprovalId → ℕ → PhaseTransition → HitlPolicy → Option String → S → Advance S
  unfolding suspend_at_gate apply_transition requires_phase_gate
  gated uuid session_id t policy none s = apply_transition session_id t s
  gated uuid session_id t policy (some current) s = elim (requires_phase_gate policy current) [
    | false ↦ apply_transition session_id t s
    | true ↦
        suspend_at_gate session_id t
          (p.submit (new_request uuid session_id (phase_gate current t.next_skill t.deliverable)) s)
  ]

  unfoldable pub current_skill : Option String → Option String
  unfolding and_then
  current_skill json =
      and_then (and_then json p.agent.of_skill_json) (λ c. some (p.agent.skill_id c))

  unfoldable pub check_gate :
      ApprovalId
      → ℕ
      → PhaseTransition
      → HitlPolicy
      → Result (Option String) SessionMemoryError
      → S
      → Advance S
  unfolding gated current_skill
  check_gate uuid session_id t policy (err e) s = (err (session e), s)
  check_gate uuid session_id t policy (ok json) s =
      gated uuid session_id t policy (current_skill json) s

  unfoldable pub move_on : ApprovalId → ℕ → Option PhaseTransition → S → Advance S
  unfolding check_gate apply_transition
  move_on uuid session_id none s = (ok none, s)
  move_on uuid session_id (some t) s = elim p.agent.hitl [
    | none ↦ apply_transition session_id t s
    | some policy ↦ check_gate uuid session_id t policy (p.get_skill_context session_id s) s
  ]

  -- `uuid` is the identifier of a new request
  unfoldable pub advance_phase : ApprovalId → String → ℕ → String → S → Advance S
  unfolding move_on assert_owner parse_phase_transition
  advance_phase uuid user_id session_id output s =
      elim (assert_owner p.agent user_id session_id s) [
        | err e ↦ (err (session e), s)
        | ok u ↦ move_on uuid session_id (parse_phase_transition output) s
      ]
