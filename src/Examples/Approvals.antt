-- ===== src/Examples/Approvals.antt =====
-- The theorems on approvals and on the limiter at concrete inputs.
use agentverse.Base.{
  ℕ, ◌*◌, ◌≤◌, String, true, ◌≡◌, ◌≢◌, ◌⊎◌, refl, some, List, [], ◌∷◌, ok, err, string_eq, nat_eq,
  arith,
}
use agentverse.Base.Map.{get, insert, is_some}
use agentverse.Core.Json.{null}
use agentverse.Hitl.Types.{
  ApprovalRequest, approved, rejected, pending, resolved, expired, not_found, already_resolved,
  tool_approval, new_request,
}
use agentverse.Hitl.Policy
use agentverse.Hitl.Policy.{
  requires_tool_approval, from_system_skills, required_tool_names, is_checkpoint_tool,
}
use agentverse.Hitl.Policy.Laws.{from_system_skills-requires}
use agentverse.Hitl.Queue
use agentverse.Hitl.Queue.{
  Entry, InMemoryQueue, poll, resolve, submit, sweep_expired, submits, resolves, sweeps_at, run,
}
use agentverse.Hitl.Queue.Laws.{run-final, resolve_outcomes, poll-sweep_expired}
use agentverse.Hitl.Queue.Gauge.{IsAccurate, run-IsAccurate}
use agentverse.Hitl.Context
use agentverse.Hitl.Context.{check_tool}
use agentverse.Hitl.Context.Laws.{check_tool-pending, check_tool-due, in_memory}
use agentverse.Guardrails.ActionGuard
use agentverse.Guardrails.ActionGuard.{ActionGuard}
use agentverse.Guardrails.RateLimiter
use agentverse.Guardrails.RateLimiter.{RateLimiter, check, admitted, requests_of, window}
use agentverse.Guardrails.RateLimiter.Laws.{recent_admissions, admitted-new}
use agentverse.Examples.{deploy, policy, context}

from_system_skills-requires_example : requires_tool_approval policy (some "deploy") "release" ≡ true
unfolding Policy.new string_eq
from_system_skills-requires_example =
    from_system_skills-requires (deploy ∷ []) "deploy" "release" (tt, tt)

abbrev approval : ApprovalRequest
approval = record (new_request 1 7 (tool_approval "release" null)) { expires_at = some 100 }

abbrev waiting : InMemoryQueue
waiting = (submit approval Queue.new).1

run-final_example :
    poll 1 (run (sweeps_at 200 ∷ resolves 1 (rejected "no") ∷ []) (resolve 1 approved waiting).1)
    ≡ ok (resolved approved)
unfolding poll resolve submit get insert nat_eq
run-final_example =
    run-final 1 (sweeps_at 200 ∷ resolves 1 (rejected "no") ∷ []) (resolve 1 approved waiting).1
      (resolved approved) (tt, (tt, tt)) refl (λ e. cc)

resolve_outcomes_example :
    ((poll 1 waiting ≡ ok pending)
      × ((resolve 1 approved waiting).0 ≡ ok tt)
      × (poll 1 (resolve 1 approved waiting).1 ≡ ok (resolved approved)))
    ⊎ (((poll 1 waiting ≡ err (not_found 1))
          × (resolve 1 approved waiting ≡ (err (not_found 1), waiting)))
        ⊎ ((s : _) × (poll 1 waiting ≡ ok s)
            × (s ≢ pending)
            × (resolve 1 approved waiting ≡ (err (already_resolved 1), waiting))))
resolve_outcomes_example = resolve_outcomes 1 approved waiting

poll-sweep_expired_example : poll 1 (sweep_expired 200 waiting).1 ≡ ok expired
unfolding submit get insert nat_eq Queue.is_due
poll-sweep_expired_example =
    poll-sweep_expired 200 1 waiting (record { request = approval; status = pending }) refl

run-IsAccurate_example : IsAccurate (run (submits approval ∷ resolves 1 approved ∷ []) Queue.new)
unfolding get
run-IsAccurate_example =
    run-IsAccurate (submits approval ∷ resolves 1 approved ∷ []) Queue.new (refl, (tt, tt)) refl

check_tool-due_example :
    is_some (check_tool (in_memory (λ k. "kind")) context 1 0 "release" null Queue.new).0 ≡ true
unfolding Context.due_tool_names required_tool_names from_system_skills string_eq get insert
check_tool-due_example =
    check_tool-due (in_memory (λ k. "kind")) context 1 0 "release" null Queue.new refl

check_tool-pending_example :
    poll 1 (check_tool (in_memory (λ k. "kind")) context 1 0 "release" null Queue.new).1
    ≡ ok pending
unfolding check_tool required_tool_names requires_tool_approval is_checkpoint_tool
    from_system_skills string_eq get insert submit Context.kind_of
check_tool-pending_example =
    check_tool-pending (λ k. "kind") context 1 0 1 "release" "kind" null Queue.new refl

abbrev checks : List (String × ℕ)
checks = ("a", 1) ∷ ("b", 2) ∷ ("a", 3) ∷ ("a", 4) ∷ []

admitted-new_example :
    recent_admissions (60 * 1000000000) "a" 9 (admitted (λ n. "n") checks (RateLimiter.new 2 60))
    ≤ 2
admitted-new_example =
    admitted-new (λ n. "n") 2 60 checks "a" 0 9
      (omega arith, (omega arith, (omega arith, (omega arith, omega arith))))

abbrev guard : ActionGuard InMemoryQueue
guard =
    ActionGuard.with_policy policy
      (ActionGuard.with_queue (in_memory (λ k. "kind")) ActionGuard.new)
