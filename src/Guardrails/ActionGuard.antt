-- ===== src/Guardrails/ActionGuard.antt =====
-- `ActionGuard` of avs-guardrails/src/action_guard.rs, the guard that the hook of avs-hitl replaces.
-- The identifiers that `Uuid::new_v4` makes are arguments.
pub mod Laws
use agentverse.Base.{ℕ, String, Bool, if◌then◌else◌, Option, none, some, Result, ok, err}
use agentverse.Core.Json.{Json}
use agentverse.Core.Strategy.{ApprovalId}
use agentverse.Hitl.Types.{tool_approval, new_request, HitlError}
use agentverse.Hitl.Policy.{HitlPolicy, requires_tool_approval}
use agentverse.Hitl.Context.{Backend}

pub record ActionGuard (Q : Type 0) : Type 0 where
  pub policy : Option HitlPolicy
  pub queue : Option (Backend Q)

module _ {Q : Type 0} where
  abbrev pub new : ActionGuard Q
  new = record { policy = none; queue = none }

  abbrev pub with_policy : HitlPolicy → ActionGuard Q → ActionGuard Q
  with_policy policy g = record g { policy = some policy }

  abbrev pub with_queue : Backend Q → ActionGuard Q → ActionGuard Q
  with_queue queue g = record g { queue = some queue }

  -- a queue that fails blocks the tool all the same
  submitted : ApprovalId → Result ApprovalId HitlError × Q → Option ApprovalId × Q
  submitted sentinel (ok id, q) = (some id, q)
  submitted sentinel (err e, q) = (some sentinel, q)

  check_with :
      Option HitlPolicy
      → Option (Backend Q)
      → (uuid sentinel : ApprovalId) → String
      → Json
      → ℕ
      → Q
      → Option ApprovalId × Q
  unfolding submitted
  check_with none queue uuid sentinel tool_name args session_id q = (none, q)
  check_with (some policy) none uuid sentinel tool_name args session_id q = (none, q)
  check_with (some policy) (some queue) uuid sentinel tool_name args session_id q =
      if requires_tool_approval policy none tool_name
      then submitted sentinel
          (queue.submit (new_request uuid session_id (tool_approval tool_name args)) q)
      else (none, q)

  unfoldable pub check :
      ActionGuard Q → (uuid sentinel : ApprovalId) → String → Json → ℕ → Q → Option ApprovalId × Q
  unfolding check_with
  check g = check_with g.policy g.queue
