-- ===== src/Hitl/Context/Laws.antt =====
-- What the hook intercepts.
use agentverse.Base.{
  String, true, false, ◌||◌, ◌≡◌, ◌∙◌, string_eq, nat_eq, contains, some, ok, arith, Option-cases,
  inl, inr, Bool-cases,
}
use agentverse.Base.Map.{is_some, get-insert}
use agentverse.Core.Json.{Json}
use agentverse.Core.Strategy.{ApprovalId}
use agentverse.Hitl.Types.{InterruptKind, new_request, pending}
use agentverse.Hitl.Policy.{is_checkpoint_tool, requires_tool_approval}
use agentverse.Hitl.Policy.Laws.{required_is_intercepted}
use agentverse.Hitl.Queue
use agentverse.Hitl.Queue.{InMemoryQueue}
use agentverse.Hitl.Context.{
  HitlContext, due_tool_names, kind_of, Backend, check_tool, ask, submitted,
}

module _ {Q : Type 0} (b : Backend Q) (ctx : HitlContext) (uuid sentinel : ApprovalId)
    (tool_name : String) (args : Json) (q : Q) where
  -- A call is intercepted exactly when it is a checkpoint or wants approval, also when the queue
  -- refuses the request; and a call that is let through leaves the queue as it was.
  pub check_tool_intercepts :
      (is_some (check_tool b ctx uuid sentinel tool_name args q).0 ≡ (
        is_checkpoint_tool tool_name || requires_tool_approval ctx.policy ctx.skill_id tool_name))
      × (is_some (check_tool b ctx uuid sentinel tool_name args q).0 ≡ false
          → (check_tool b ctx uuid sentinel tool_name args q).1 ≡ q)
  unfolding check_tool kind_of submitted
  check_tool_intercepts = (ground arith, ground arith)

  -- No call of a tool that is due can go through without an approval.
  pub check_tool-due :
      contains (due_tool_names ctx) tool_name ≡ true
      → is_some (check_tool b ctx uuid sentinel tool_name args q).0 ≡ true
  unfolding due_tool_names
  check_tool-due due = elim (Bool-cases ctx.already_satisfied) [
    | inl resumed ↦ cc (rw resumed at due)
    | inr fresh ↦
        check_tool_intercepts.0
        ∙ required_is_intercepted ctx.policy ctx.skill_id tool_name (rw fresh at due)
  ]

-- The in-memory queue as the hook's queue.
abbrev pub in_memory : (InterruptKind → String) → Backend InMemoryQueue
in_memory show_kind = record { submit = Queue.submit; show_kind = show_kind }

-- With the in-memory queue, the approval of an intercepted call is pending under the identifier that
-- the hook returns.
pub check_tool-pending :
    (show_kind : InterruptKind → String) (ctx : HitlContext) (uuid sentinel id : ApprovalId)
    (tool_name kind_json : String) (args : Json) (q : InMemoryQueue)
    → (check_tool (in_memory show_kind) ctx uuid sentinel tool_name args q).0 ≡ some (id, kind_json)
    → Queue.poll id (check_tool (in_memory show_kind) ctx uuid sentinel tool_name args q).1
      ≡ ok pending
unfolding check_tool Queue.submit Queue.poll
check_tool-pending show_kind ctx uuid sentinel id tool_name kind_json args q h =
    elim (Option-cases (kind_of ctx tool_name args)) [
      | inl quiet ↦ cc (rw (quiet, ask) at h)
      | inr (kind, wanted) ↦
          let e : Queue.Entry = record {
            request = new_request uuid ctx.session_id kind;
            status = pending;
          } in
          ground (arith, get-insert uuid uuid e q.entries)
    ]
