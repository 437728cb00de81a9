-- ===== src/Guardrails/ActionGuard/Laws.antt =====
-- What the guard intercepts.
use agentverse.Base.{
  ℕ, String, Bool, true, false, ◌&&◌, ◌≡◌, refl, inl, inr, Option, none, some, Result, ok, err,
  Bool-cases,
}
use agentverse.Base.Map.{is_some}
use agentverse.Core.Json.{Json}
use agentverse.Core.Strategy.{ApprovalId}
use agentverse.Hitl.Types.{HitlError, new_request, tool_approval}
use agentverse.Hitl.Policy.{HitlPolicy, requires_tool_approval}
use agentverse.Hitl.Context.{Backend}
use agentverse.Guardrails.ActionGuard.{ActionGuard, check, check_with, submitted}

abbrev pub wants : Option HitlPolicy → String → Bool
wants none tool_name = false
wants (some policy) tool_name = requires_tool_approval policy none tool_name

module _ {Q : Type 0} (uuid sentinel : ApprovalId) (tool_name : String) (args : Json)
    (session_id : ℕ) (q : Q) where
  submitted-is_some :
      (x : Result ApprovalId HitlError × Q) → is_some (submitted sentinel x).0 ≡ true
  unfolding submitted
  submitted-is_some (ok id, q') = refl
  submitted-is_some (err e, q') = refl

  check_with_lem :
      (p : Option HitlPolicy) (b : Option (Backend Q))
      → (is_some (check_with p b uuid sentinel tool_name args session_id q).0
          ≡ (is_some b && wants p tool_name))
        × (is_some (check_with p b uuid sentinel tool_name args session_id q).0 ≡ false
            → (check_with p b uuid sentinel tool_name args session_id q).1 ≡ q)
  unfolding check_with
  check_with_lem none none = (refl, λ h. refl)
  check_with_lem none (some b) = (refl, λ h. refl)
  check_with_lem (some p) none = (refl, λ h. refl)
  check_with_lem (some p) (some b) = elim (Bool-cases (requires_tool_approval p none tool_name)) [
    | inl h ↦
        let x : Result ApprovalId HitlError × Q =
          b.submit (new_request uuid session_id (tool_approval tool_name args)) q in
        rw h (submitted-is_some x, λ k. cc (rw (submitted-is_some x) at k))
    | inr h ↦ rw h (refl, λ k. refl)
  ]

  -- The guard intercepts a call exactly when it has a queue and a policy that wants an approval for the
  -- tool outside every skill, also when the queue fails; a call that it lets through leaves the queue
  -- as it was.
  check_lem :
      (g : ActionGuard Q)
      → (is_some (check g uuid sentinel tool_name args session_id q).0
          ≡ (is_some g.queue && wants g.policy tool_name))
        × (is_some (check g uuid sentinel tool_name args session_id q).0 ≡ false
            → (check g uuid sentinel tool_name args session_id q).1 ≡ q)
  unfolding check
  check_lem g = check_with_lem g.policy g.queue
