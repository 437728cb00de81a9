-- ===== src/Hitl/Context.antt =====
-- `HitlContext` of avs-hitl/src/context.rs, the hook that the strategies call before they run tools.
-- The queue is any implementation of `ApprovalQueue` over a state `Q`; the identifiers that
-- `Uuid::new_v4` makes are arguments, and so is the text of an interrupt (serde_json).
pub mod Laws
use agentverse.Base.{
  ℕ, String, Bool, true, false, if◌then◌else◌, Option, none, some, List, [], Result, ok, err,
}
use agentverse.Core.Json.{Json, index, as_str}
use agentverse.Core.Strategy.{ApprovalId}
use agentverse.Hitl.Types.{
  InterruptKind, tool_approval, skill_checkpoint, ApprovalRequest, new_request, HitlError,
}
use agentverse.Hitl.Policy.{
  HitlPolicy, is_checkpoint_tool, requires_tool_approval, required_tool_names,
}

pub record HitlContext : Type 0 where
  pub session_id : ℕ
  pub skill_id : Option String
  pub policy : HitlPolicy
  pub already_satisfied : Bool

abbrev pub new : ℕ → Option String → HitlPolicy → HitlContext
new session_id skill_id policy = record {
  session_id = session_id;
  skill_id = skill_id;
  policy = policy;
  already_satisfied = false;
}

abbrev pub new_for_resume : ℕ → Option String → HitlPolicy → HitlContext
new_for_resume session_id skill_id policy = record {
  session_id = session_id;
  skill_id = skill_id;
  policy = policy;
  already_satisfied = true;
}

-- `HitlContext::required_tool_names`
unfoldable pub due_tool_names : HitlContext → List String
due_tool_names ctx =
    if ctx.already_satisfied then [] else required_tool_names ctx.policy ctx.skill_id

unwrap_or : Option String → String → String
unwrap_or none d = d
unwrap_or (some s) d = s

-- the kind of interrupt that a call wants, if it wants one
unfoldable pub kind_of : HitlContext → String → Json → Option InterruptKind
unfolding index unwrap_or
kind_of ctx tool_name args =
    if is_checkpoint_tool tool_name
    then some
        (skill_checkpoint (unwrap_or (as_str (index args "name")) "unknown") (index args "payload"))
    else if requires_tool_approval ctx.policy ctx.skill_id tool_name
    then some (tool_approval tool_name args)
    else none

-- `ApprovalQueue::submit` of some queue, and the text of an interrupt
pub record Backend (Q : Type 0) : Type 0 where
  pub submit : ApprovalRequest → Q → Result ApprovalId HitlError × Q
  pub show_kind : InterruptKind → String

submitted : ApprovalId → String → Result ApprovalId HitlError → Option (ApprovalId × String)
submitted sentinel kind_json (ok id) = some (id, kind_json)
submitted sentinel kind_json (err e) = some (sentinel, kind_json)

module _ {Q : Type 0} (b : Backend Q) (ctx : HitlContext) (uuid sentinel : ApprovalId) where
  ask : Option InterruptKind → Q → Option (ApprovalId × String) × Q
  unfolding submitted
  ask none q = (none, q)
  ask (some kind) q =
      let (r, q') = b.submit (new_request uuid ctx.session_id kind) q in
      (submitted sentinel (b.show_kind kind) r, q')

  unfoldable pub check_tool : String → Json → Q → Option (ApprovalId × String) × Q
  unfolding ask
  check_tool tool_name args q = ask (kind_of ctx tool_name args) q
