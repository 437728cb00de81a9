-- ===== src/Tools/Execute/Laws.antt =====
-- What an intercepted call does to the others, for a hook whose decision depends on the call alone,
-- and the hook of avs-hitl as one.
use agentverse.Base.{
  String, Bool, true, false, ◌||◌, ◌≡◌, refl, List, [], ◌∷◌, any, ok, is_ok, arith, Option-cases,
  inl, inr,
}
use agentverse.Base.Map.{is_some}
use agentverse.Core.Json.{Json}
use agentverse.Core.Tool.{ToolCall}
use agentverse.Core.Strategy.{ApprovalId}
use agentverse.Hitl.Policy.{is_checkpoint_tool, requires_tool_approval}
use agentverse.Hitl.Context.{HitlContext, Backend, check_tool, due_tool_names}
use agentverse.Hitl.Context.Laws.{check_tool_intercepts}
use agentverse.Tools.Registry.{ToolRegistry}
use agentverse.Tools.Execute.{
  Joined, HitlHook, check_calls, stop_at, execute_many_hitl, execute_many, dispatch,
}

-- A hook that decides on a call by its name and arguments, and leaves its state where it lets a call
-- through.
pub record Decides {Q : Type 0} (hook : HitlHook Q) : Type 0 where
  pub decides : String → Json → Bool
  pub agrees :
      (name : String) (args : Json) (q : Q)
      → is_some (hook.check_tool name args q).0 ≡ decides name args
  pub quiet :
      (name : String) (args : Json) (q : Q)
      → is_some (hook.check_tool name args q).0 ≡ false
      → (hook.check_tool name args q).1 ≡ q

module _ {Q : Type 0} (hook : HitlHook Q) (law : Decides hook) where
  abbrev pub intercepted : ToolCall → Bool
  intercepted c = law.decides c.name c.args

  check_calls_lem :
      (calls : List ToolCall) (q : Q)
      → (is_some (check_calls hook calls q).0 ≡ any intercepted calls)
        × (any intercepted calls ≡ false → (check_calls hook calls q).1 ≡ q)
  unfolding check_calls stop_at
  check_calls_lem [] q = (refl, λ _. refl)
  check_calls_lem (c ∷ calls) q = elim (Option-cases (hook.check_tool c.name c.args q).0) [
    | inl h ↦ ground (
      arith,
      h,
      law.agrees c.name c.args q,
      law.quiet c.name c.args q,
      check_calls_lem calls (hook.check_tool c.name c.args q).1,
    )
    | inr (i, h) ↦ ground (arith, h, law.agrees c.name c.args q)
  ]

  -- With a hook that decides on a call by the call alone, it is all or nothing: where any call is intercepted, the result is an interrupt and no call is
  -- dispatched; else every call is, in one batch, and the state of the hook stays.
  pub execute_many_hitl_lem :
      (completion : List Joined → List Joined) (r : ToolRegistry) (calls : List ToolCall) (q : Q)
      → (any intercepted calls ≡ true
          → (is_ok (execute_many_hitl hook completion r calls q).0 ≡ false)
            × ((execute_many_hitl hook completion r calls q).2 ≡ []))
        × (any intercepted calls ≡ false
            → execute_many_hitl hook completion r calls q
              ≡ (ok (execute_many completion r calls), q, calls))
  unfolding execute_many_hitl dispatch
  execute_many_hitl_lem completion r calls q = elim (Option-cases (check_calls hook calls q).0) [
    | inl h ↦ ground (arith, h, check_calls_lem calls q)
    | inr (i, h) ↦ ground (arith, h, check_calls_lem calls q)
  ]

-- The hook of a context of avs-hitl.
module _ {Q : Type 0} (b : Backend Q) (ctx : HitlContext) (uuid sentinel : ApprovalId) where
  unfoldable pub context_hook : HitlHook Q
  context_hook = record {
    check_tool = check_tool b ctx uuid sentinel;
    required_tool_names = due_tool_names ctx;
  }

  unfoldable pub context_hook-Decides : Decides context_hook
  unfolding context_hook
  context_hook-Decides = record {
    decides =
        λ name args. is_checkpoint_tool name || requires_tool_approval ctx.policy ctx.skill_id name;
    agrees = λ name args q. (check_tool_intercepts b ctx uuid sentinel name args q).0;
    quiet = λ name args q. (check_tool_intercepts b ctx uuid sentinel name args q).1;
  }
