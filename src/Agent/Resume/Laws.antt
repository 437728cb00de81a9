-- ===== src/Agent/Resume/Laws.antt =====
-- What a resume asks for before it changes anything, and that it takes up what was suspended.
use agentverse.Base.{
  ℕ, String, true, false, ◌==◌, string_eq, ◌≡◌, refl, ◌⊎◌, inl, inr, Option, none, some, [], Result,
  ok, err, is_ok, arith, Bool-cases,
}
use agentverse.Core.Strategy.{ApprovalId, HitlInterrupt}
use agentverse.Hitl.Types.{
  InterruptKind, tool_approval, phase_gate, skill_checkpoint, ApprovalDecision,
}
use agentverse.Memory.Session.Types.{InterruptedState, SessionMemoryError, approval_id_str}
use agentverse.Agent.Types.{Agent, AgentError, Plan, pending_turn, Outcome, and_then}
use agentverse.Agent.Calls.{state_of}
use agentverse.Agent.Resume.{
  resume, resume_owned, resume_found, resume_state, proceed_if, assert_owner, plan_of, proceed,
  with_payload, parse_resume_payload, parsed,
}

module _ {S C : Type 0} (a : Agent S C) (session_id : ℕ) (approval_id : ApprovalId)
    (decision : ApprovalDecision) (s : S) where
  -- what stands in the session, where a resume may go on
  pub record Resumable (user_id : String) (plan : Plan) : Type 0 where
    pub state_json : String
    pub state : InterruptedState
    pub owned : assert_owner a user_id session_id s ≡ ok tt
    pub stored : a.get_interrupted_state session_id s ≡ ok (some state_json)
    pub decodes : a.of_state_json state_json ≡ ok state
    pub same_approval : approval_id_str state == a.show_id approval_id ≡ true
    pub planned : plan_of a state ≡ ok plan

  -- A resume that fails and changes nothing, or that carries out what stands in the session.
  abbrev pub Guarded : String → Outcome S → Type 0
  Guarded user_id x =
      ((is_ok x.0 ≡ false) × (x.1 ≡ s))
      ⊎ ((plan : Plan) × Resumable user_id plan × (x ≡ proceed a session_id decision plan s))

  proceed_if-Guarded :
      (user_id state_json : String) (state : InterruptedState)
      → assert_owner a user_id session_id s ≡ ok tt
      → a.get_interrupted_state session_id s ≡ ok (some state_json)
      → a.of_state_json state_json ≡ ok state
      → approval_id_str state == a.show_id approval_id ≡ true
      → (r : Result Plan AgentError) → plan_of a state ≡ r
      → Guarded user_id (proceed_if a session_id decision r s)
  unfolding proceed_if
  proceed_if-Guarded user_id j state owned stored decodes same (err e) p = inl (refl, refl)
  proceed_if-Guarded user_id j state owned stored decodes same (ok plan) p = inr (
    plan,
    record {
      state_json = j;
      state = state;
      owned = owned;
      stored = stored;
      decodes = decodes;
      same_approval = same;
      planned = p;
    },
    refl,
  )

  resume_state-Guarded :
      (user_id state_json : String)
      → assert_owner a user_id session_id s ≡ ok tt
      → a.get_interrupted_state session_id s ≡ ok (some state_json)
      → (r : Result InterruptedState String) → a.of_state_json state_json ≡ r
      → Guarded user_id (resume_state a session_id approval_id decision r s)
  unfolding resume_state
  resume_state-Guarded user_id j owned stored (err e) p = inl (refl, refl)
  resume_state-Guarded user_id j owned stored (ok state) p =
      elim (Bool-cases (approval_id_str state == a.show_id approval_id)) [
        | inl same ↦
            rw same (proceed_if-Guarded user_id j state owned stored p same (plan_of a state) refl)
        | inr other ↦ rw other (inl (refl, refl))
      ]

  resume_found-Guarded :
      (user_id : String)
      → assert_owner a user_id session_id s ≡ ok tt
      → (r : Result (Option String) SessionMemoryError) → a.get_interrupted_state session_id s ≡ r
      → Guarded user_id (resume_found a session_id approval_id decision r s)
  unfolding resume_found
  resume_found-Guarded user_id owned (err e) p = inl (refl, refl)
  resume_found-Guarded user_id owned (ok none) p = inl (refl, refl)
  resume_found-Guarded user_id owned (ok (some j)) p =
      resume_state-Guarded user_id j owned p (a.of_state_json j) refl

  resume_owned-Guarded :
      (user_id : String) (r : Result (Unit {0}) SessionMemoryError)
      → assert_owner a user_id session_id s ≡ r
      → Guarded user_id (resume_owned a session_id approval_id decision r s)
  unfolding resume_owned
  resume_owned-Guarded user_id (err e) p = inl (refl, refl)
  resume_owned-Guarded user_id (ok u) p =
      resume_found-Guarded user_id p (a.get_interrupted_state session_id s) refl

  pub resume-Guarded :
      (user_id : String) → Guarded user_id (resume a user_id session_id approval_id decision s)
  unfolding resume
  resume-Guarded user_id = resume_owned-Guarded user_id (assert_owner a user_id session_id s) refl

module _ {S C : Type 0} (a : Agent S C) (i : HitlInterrupt) (skill_ctx : Option C) where
  -- the plan that an interrupt leaves behind: a checkpoint keeps no pending calls
  abbrev pub left_plan : InterruptKind → Plan
  left_plan (skill_checkpoint name payload) =
      pending_turn i.active_tool_names (and_then skill_ctx a.to_skill_json) i.history []
  left_plan (tool_approval name args) =
      pending_turn i.active_tool_names (and_then skill_ctx a.to_skill_json) i.history
        i.pending_calls
  left_plan (phase_gate from to deliverable) =
      pending_turn i.active_tool_names (and_then skill_ctx a.to_skill_json) i.history
        i.pending_calls

module _ {S C : Type 0} (a : Agent S C) (session_id : ℕ) (i : HitlInterrupt) (skill_ctx : Option C)
    (kind : InterruptKind) where
  -- The encodings of what the interrupt holds can be read back.
  pub record ReadsBack : Type 0 where
    pub reads_state :
        a.of_state_json (a.to_state_json (state_of a i skill_ctx kind))
        ≡ ok (state_of a i skill_ctx kind)
    pub reads_history : a.of_history_json (a.to_history_json i.history) ≡ ok i.history
    pub reads_calls : a.of_calls_json (a.to_calls_json i.pending_calls) ≡ ok i.pending_calls
    pub reads_none : a.of_calls_json "[]" ≡ ok []

  state_of-approval :
      (k : InterruptKind) → approval_id_str (state_of a i skill_ctx k) ≡ a.show_id i.approval_id
  unfolding state_of approval_id_str
  state_of-approval (skill_checkpoint name payload) = refl
  state_of-approval (tool_approval name args) = refl
  state_of-approval (phase_gate from to deliverable) = refl

  plan_of-state :
      ReadsBack
      → (k : InterruptKind) → plan_of a (state_of a i skill_ctx k) ≡ ok (left_plan a i skill_ctx k)
  unfolding state_of plan_of with_payload parse_resume_payload parsed
  plan_of-state r (skill_checkpoint name payload) = rw (r.reads_history, r.reads_none)
  plan_of-state r (tool_approval name args) = rw (r.reads_history, r.reads_calls)
  plan_of-state r (phase_gate from to deliverable) = rw (r.reads_history, r.reads_calls)

  pub resume-suspended :
      (user_id : String) (decision : ApprovalDecision) (s : S)
      → ReadsBack
      → assert_owner a user_id session_id s ≡ ok tt
      → a.get_interrupted_state session_id s
        ≡ ok (some (a.to_state_json (state_of a i skill_ctx kind)))
      → resume a user_id session_id i.approval_id decision s
        ≡ proceed a session_id decision (left_plan a i skill_ctx kind) s
  unfolding resume proceed
  resume-suspended user_id decision s r owned stored =
      let same : (approval_id_str (state_of a i skill_ctx kind) == a.show_id i.approval_id) ≡ true =
        (ground (arith, state_of-approval kind)) in
      rw
        (
          resume,
          owned,
          resume_owned,
          stored,
          resume_found,
          r.reads_state,
          resume_state,
          same,
          plan_of-state r kind,
          proceed_if,
        )
        refl
