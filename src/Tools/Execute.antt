-- ===== src/Tools/Execute.antt =====
-- `execute`, `execute_many` and `execute_many_hitl` of avs-tools/src/registry.rs. The tasks of a
-- `JoinSet` end in an order that tokio decides: the parameter `completion` orders them. The
-- metrics and the log are left out.
pub mod Laws
pub mod Join
use agentverse.Base.{
  String, ◌==◌, string_eq, Option, none, some, List, [], ◌∷◌, ◌++◌, map, Result, ok, err,
}
use agentverse.Base.Map.{get}
use agentverse.Core.Json.{Json}
use agentverse.Core.Error.{not_found}
use agentverse.Core.Tool.{ToolCall, ToolCallResult}
use agentverse.Core.Strategy.{ApprovalId}
use agentverse.Tools.Registry.{Run, finished, panicked, ErasedTool, ToolEntry, ToolRegistry}

-- a task of the `JoinSet`, when it has ended
pub data Joined : Type 0 where
  returned : ToolCallResult → Joined
  join_error : Joined

unfoldable pub tool_of : Option ToolEntry → Option ErasedTool
tool_of none = none
tool_of (some entry) = some entry.tool

unfoldable pub run_tool : Option ErasedTool → String → Json → Run
run_tool none name args = finished (err (not_found name))
run_tool (some t) name args = t.execute_raw args

-- a panic of the tool unwinds into the caller of `execute`
unfoldable pub execute : ToolRegistry → String → Json → Run
unfolding tool_of run_tool
execute r name args = run_tool (tool_of (get name r.tools)) name args

unfoldable pub resolve : ToolRegistry → List ToolCall → List (Option ErasedTool × ToolCall)
unfolding tool_of
resolve r [] = []
resolve r (c ∷ calls) = (tool_of (get c.name r.tools), c) ∷ resolve r calls

unfoldable pub join_of : ToolCall → Run → Joined
join_of c (finished result) = returned (record { id = c.id; name = c.name; result = result })
join_of c panicked = join_error

unfoldable pub spawn : Option ErasedTool × ToolCall → Joined
unfolding join_of run_tool
spawn (t, c) = join_of c (run_tool t c.name c.args)

-- `while let Some(Ok(r)) = set.join_next().await`
unfoldable pub drain : List Joined → List ToolCallResult
drain [] = []
drain (returned r ∷ js) = r ∷ drain js
drain (join_error ∷ js) = []

module _ (completion : List Joined → List Joined) (r : ToolRegistry) where
  unfoldable pub execute_many : List ToolCall → List ToolCallResult
  unfolding resolve spawn drain
  execute_many calls = drain (completion (map spawn (resolve r calls)))

pub record HitlInterruptResult : Type 0 where
  pub approval_id : ApprovalId
  pub kind_json : String

-- `HitlHook` of avs-core/src/hitl.rs, over the state `Q` of what the hook mutates
pub record HitlHook (Q : Type 0) : Type 0 where
  pub check_tool : String → Json → Q → Option (ApprovalId × String) × Q
  pub required_tool_names : List String

module _ {Q : Type 0} (hook : HitlHook Q) where
  stop_at :
      Option (ApprovalId × String) × Q
      → Option HitlInterruptResult × Q
      → Option HitlInterruptResult × Q
  stop_at (some (approval_id, kind_json), q) rest =
      (some (record { approval_id = approval_id; kind_json = kind_json }), q)
  stop_at (none, q) rest = rest

  check_calls : List ToolCall → Q → Option HitlInterruptResult × Q
  unfolding stop_at
  check_calls [] q = (none, q)
  check_calls (c ∷ calls) q =
      stop_at (hook.check_tool c.name c.args q)
        (check_calls calls (hook.check_tool c.name c.args q).1)

  -- The calls that are dispatched to the registry are the last component.
  module _ (completion : List Joined → List Joined) (r : ToolRegistry) where
    dispatch :
        List ToolCall
        → Option HitlInterruptResult × Q
        → Result (List ToolCallResult) HitlInterruptResult × Q × List ToolCall
    unfolding execute_many
    dispatch calls (some i, q) = (err i, q, [])
    dispatch calls (none, q) = (ok (execute_many completion r calls), q, calls)

    unfoldable pub execute_many_hitl :
        List ToolCall → Q → Result (List ToolCallResult) HitlInterruptResult × Q × List ToolCall
    unfolding dispatch check_calls
    execute_many_hitl calls q = dispatch calls (check_calls calls q)
