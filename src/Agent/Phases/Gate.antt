-- ===== src/Agent/Phases/Gate.antt =====
-- What a phase gate holds back.
use agentverse.Base.{
  ℕ, String, true, false, string_eq, ◌≡◌, refl, ◌∙◌, ◌⊎◌, inl, inr, is_ok, Option, none, some,
  Result, ok, err, Result-cases,
}
use agentverse.Core.Strategy.{ApprovalId}
use agentverse.Hitl.Types.{phase_gate, ApprovalRequest, new_request, HitlError}
use agentverse.Hitl.Policy.{HitlPolicy, requires_phase_gate}
use agentverse.Memory.Session.Types.{suspended, SessionMemoryError}
use agentverse.Agent.Types.{PhaseTransition, AgentError}
use agentverse.Agent.Resume.{assert_owner}
use agentverse.Agent.Phases.{
  PhaseAdvanceResult, awaiting, parse_phase_transition, Phases, then_store, gate_state,
  suspend_at_gate, gated, current_skill, check_gate, move_on, advance_phase,
}

module _ {S C : Type 0} (p : Phases S C) (uuid : ApprovalId) (user_id : String)
    (session_id : ℕ) where
  -- The transition of an output waits for an approval: the queue has its request, the store has the
  -- state that it resumes from, and the session is interrupted.
  pub record Waiting (output current : String) (s : S)
      (x : Result (Option PhaseAdvanceResult) AgentError × S) : Type 0 where
    pub transition : PhaseTransition
    pub id : ApprovalId
    pub submitted_store : S
    pub state_store : S
    pub named : parse_phase_transition output ≡ some transition
    pub submitted :
        p.submit
          (new_request uuid session_id
            (phase_gate current transition.next_skill transition.deliverable))
          s
        ≡ (ok id, submitted_store)
    pub left :
        p.agent.set_interrupted_state session_id
          (some (p.agent.to_state_json (gate_state p id transition)))
          submitted_store
        ≡ (ok tt, state_store)
    pub interrupted : p.agent.update_status session_id suspended state_store ≡ (ok tt, x.1)
    pub returned : x.0 ≡ ok (some (awaiting id))

  -- An output at a gate: it fails, it is no transition and nothing changes, or it waits.
  abbrev pub Held :
      (output current : String) → S → Result (Option PhaseAdvanceResult) AgentError × S → Type 0
  Held output current s x =
      (is_ok x.0 ≡ false)
      ⊎ ((parse_phase_transition output ≡ none) × (x ≡ (ok none, s)))
      ⊎ Waiting output current s x

  -- A reading of the store that the steps of a suspension leave as it is.
  pub record Untouched (A : Type 0) (f : S → A) : Type 0 where
    pub by_submit : (r : ApprovalRequest) (s : S) → f (p.submit r s).1 ≡ f s
    pub by_state :
        (t : Option String) (s : S) → f (p.agent.set_interrupted_state session_id t s).1 ≡ f s
    pub by_status : (s : S) → f (p.agent.update_status session_id suspended s).1 ≡ f s

  interrupt-Held :
      (output current : String) (t : PhaseTransition) (s s1 s2 : S) (id : ApprovalId)
      → parse_phase_transition output ≡ some t
      → p.submit (new_request uuid session_id (phase_gate current t.next_skill t.deliverable)) s
        ≡ (ok id, s1)
      → p.agent.set_interrupted_state session_id
          (some (p.agent.to_state_json (gate_state p id t)))
          s1
        ≡ (ok tt, s2)
      → (r : Result (Unit {0}) SessionMemoryError × S)
      → p.agent.update_status session_id suspended s2 ≡ r
      → Held output current s (then_store r (λ v. (ok (some (awaiting id)), v)))
  unfolding then_store
  interrupt-Held output current t s s1 s2 id e e1 e2 (err x, v) e3 = inl refl
  interrupt-Held output current t s s1 s2 id e e1 e2 (ok u, v) e3 = inr (
      inr (record {
        transition = t;
        id = id;
        submitted_store = s1;
        state_store = s2;
        named = e;
        submitted = e1;
        left = e2;
        interrupted = e3;
        returned = refl;
      }))

  state-Held :
      (output current : String) (t : PhaseTransition) (s s1 : S) (id : ApprovalId)
      → parse_phase_transition output ≡ some t
      → p.submit (new_request uuid session_id (phase_gate current t.next_skill t.deliverable)) s
        ≡ (ok id, s1)
      → (r : Result (Unit {0}) SessionMemoryError × S)
      → p.agent.set_interrupted_state session_id
          (some (p.agent.to_state_json (gate_state p id t)))
          s1
        ≡ r
      → Held output current s (
          then_store r (λ u.
            then_store
              (p.agent.update_status session_id suspended u)
              (λ v. (ok (some (awaiting id)), v))))
  unfolding then_store
  state-Held output current t s s1 id e e1 (err x, v) e2 = inl refl
  state-Held output current t s s1 id e e1 (ok u, v) e2 =
      interrupt-Held output current t s s1 v id e e1 e2 _ refl

  suspend-Held :
      (output current : String) (t : PhaseTransition) (s : S)
      → parse_phase_transition output ≡ some t
      → (r : Result ApprovalId HitlError × S)
      → p.submit (new_request uuid session_id (phase_gate current t.next_skill t.deliverable)) s ≡ r
      → Held output current s (suspend_at_gate p session_id t r)
  unfolding suspend_at_gate
  suspend-Held output current t s e (err x, v) e1 = inl refl
  suspend-Held output current t s e (ok id, v) e1 = state-Held output current t s v id e e1 _ refl

  move_on-suspend :
      (current json : String) (policy : HitlPolicy) (s : S) (t : PhaseTransition)
      → p.agent.hitl ≡ some policy
      → p.get_skill_context session_id s ≡ ok (some json)
      → current_skill p (some json) ≡ some current
      → requires_phase_gate policy current ≡ true
      → move_on p uuid session_id (some t) s
        ≡ suspend_at_gate p session_id t (
            p.submit
              (new_request uuid session_id (phase_gate current t.next_skill t.deliverable))
              s)
  unfolding move_on check_gate gated
  move_on-suspend current json policy s t configured stored decodes closed =
      rw (configured, move_on, stored, check_gate, decodes, gated, closed) refl

  module _ {A : Type 0} (f : S → A) (kept : Untouched A f) where
    then_store-kept :
        (r : Result (Unit {0}) SessionMemoryError × S)
        (next : S → Result (Option PhaseAdvanceResult) AgentError × S)
        → ((u : S) → f (next u).1 ≡ f u)
        → f (then_store r next).1 ≡ f r.1
    unfolding then_store
    then_store-kept (ok u, s) next h = h s
    then_store-kept (err e, s) next h = refl

    suspend-kept :
        (t : PhaseTransition) (r : Result ApprovalId HitlError × S)
        → f (suspend_at_gate p session_id t r).1 ≡ f r.1
    unfolding suspend_at_gate
    suspend-kept t (err e, s) = refl
    suspend-kept t (ok id, s) =
        let json : String = p.agent.to_state_json (gate_state p id t) in
        then_store-kept (p.agent.set_interrupted_state session_id (some json) s)
          (λ u.
            then_store (p.agent.update_status session_id suspended u)
              (λ v. (ok (some (awaiting id)), v)))
          (λ u.
            then_store-kept (p.agent.update_status session_id suspended u)
              (λ v. (ok (some (awaiting id)), v)) (λ v. refl)
            ∙ kept.by_status u)
        ∙ kept.by_state (some json) s

    move_on-Held :
        (output current json : String) (policy : HitlPolicy) (s : S) (t : Option PhaseTransition)
        → p.agent.hitl ≡ some policy
        → p.get_skill_context session_id s ≡ ok (some json)
        → current_skill p (some json) ≡ some current
        → requires_phase_gate policy current ≡ true
        → parse_phase_transition output ≡ t
        → Held output current s (move_on p uuid session_id t s)
          × (f (move_on p uuid session_id t s).1 ≡ f s)
    unfolding move_on
    move_on-Held output current json policy s none configured stored decodes closed e =
        (inr (inl (e, refl)), refl)
    move_on-Held output current json policy s (some t) configured stored decodes closed e =
        rw (move_on-suspend current json policy s t configured stored decodes closed)
          (suspend-Held output current t s e _ refl, suspend-kept t _ ∙ kept.by_submit _ s)

    -- Where the policy has a gate behind the skill of a session, an output that ends it fails, or is
    -- no transition and changes nothing, or waits: its own request went to the queue, the state to
    -- resume it from was stored, the session was interrupted, each once and in this order, and the
    -- identifier of the request is returned. However it ends, what those three steps do not touch is
    -- as it was, such as the contexts of the skill and of the phase.
    pub advance_phase-gated :
        (output current json : String) (policy : HitlPolicy) (s : S)
        → p.agent.hitl ≡ some policy
        → p.get_skill_context session_id s ≡ ok (some json)
        → current_skill p (some json) ≡ some current
        → requires_phase_gate policy current ≡ true
        → Held output current s (advance_phase p uuid user_id session_id output s)
          × (f (advance_phase p uuid user_id session_id output s).1 ≡ f s)
    unfolding advance_phase
    advance_phase-gated output current json policy s configured stored decodes closed =
        elim (Result-cases (assert_owner p.agent user_id session_id s)) [
          | inl (u, e) ↦
              rw (e, advance_phase)
                (move_on-Held output current json policy s _ configured stored decodes closed refl)
          | inr (x, e) ↦ rw (e, advance_phase) (inl refl, refl)
        ]
