-- ===== src/Agent/Phases/Laws.antt =====
-- The approval of a phase gate applies the transition that was held back.
use agentverse.Base.{
  ℕ, String, true, ◌==◌, string_eq, ◌≡◌, refl, inl, inr, Option, none, some, Result, ok,
  Result-cases, arith,
}
use agentverse.Core.Strategy.{ApprovalId}
use agentverse.Hitl.Types.{approved}
use agentverse.Memory.Session.Types.{active, approval_id_str}
use agentverse.Agent.Types.{PhaseTransition, AgentError, after}
use agentverse.Agent.Resume.{
  resume, resume_phase_gate, resume_owned, resume_found, resume_state, proceed_if, proceed,
  assert_owner, plan_of, take_phase, enter_skill, carry_out,
}
use agentverse.Agent.Phases.{Phases, then_store, gate_state, apply_transition, compiled}

module _ {S C : Type 0} (p : Phases S C) (session_id : ℕ) (t : PhaseTransition) where
  -- resuming a gate writes what moving on at once writes
  entered :
      (compile : Option (String → Result String AgentError)) (s : S)
      → p.agent.compile_context ≡ compile
      → (enter_skill p.agent session_id t compile s).1 ≡ (apply_transition p session_id t s).1
  unfolding enter_skill apply_transition compiled then_store after
  entered none s e = rw e refl
  entered (some compile) s e =
      rw (e, apply_transition)
        (elim (Result-cases (compile t.next_skill)) [
          | inl (c, f) ↦ ground (arith, f)
          | inr (x, f) ↦ ground (arith, f)
        ])

  -- What an owner's approval of a phase gate leaves in the store is what moving on at once would have
  -- left there, once the state of the gate is cleared and the session is active. The gate's state and
  -- its transition can be read back.
  pub resume-gate :
      (user_id : String) (id : ApprovalId) (s u v : S)
      → p.agent.of_state_json (p.agent.to_state_json (gate_state p id t)) ≡ ok (gate_state p id t)
      → p.agent.of_transition_json (p.to_transition_json t) ≡ ok t
      → assert_owner p.agent user_id session_id s ≡ ok tt
      → p.agent.get_interrupted_state session_id s
        ≡ ok (some (p.agent.to_state_json (gate_state p id t)))
      → p.agent.set_interrupted_state session_id none s ≡ (ok tt, u)
      → p.agent.update_status session_id active u ≡ (ok tt, v)
      → (resume p.agent user_id session_id id approved s).1 ≡ (apply_transition p session_id t v).1
  unfolding resume proceed carry_out resume_phase_gate after
  resume-gate user_id id s u v reads reads_t owned stored clears activates =
      let same : (approval_id_str (gate_state p id t) == p.agent.show_id id) ≡ true =
        (unfold approval_id_str in ground arith) in
      rw
        (
          resume, owned, resume_owned, stored, resume_found, reads, resume_state, same, plan_of,
          proceed_if, clears, after, activates, reads_t, take_phase,
        )
        (entered p.agent.compile_context v refl)
