-- ===== src/Examples/Turns.antt =====
-- The theorems on tools and on the loop at concrete inputs.
use agentverse.Base.{
  ◌+◌, ◌≤◌, true, false, ◌≡◌, refl, none, List, [], ◌∷◌, map, any, All, length, ok, is_ok,
  string_eq,
}
use agentverse.Base.Map.{get, insert}
use agentverse.Core.Tool.{ToolCall}
use agentverse.Hitl.Policy.{from_system_skills, required_tool_names}
use agentverse.Hitl.Context.{due_tool_names}
use agentverse.Hitl.Context.Laws.{in_memory}
use agentverse.Hitl.Queue
use agentverse.Hitl.Queue.{InMemoryQueue}
use agentverse.Provider.Connection.{World, alone}
use agentverse.Provider.Connection.Generate.Laws.{capacity}
use agentverse.Tools.Registry
use agentverse.Tools.Registry.{ToolRegistry}
use agentverse.Tools.Execute.{HitlHook, execute, execute_many, execute_many_hitl}
use agentverse.Tools.Execute.Laws.{
  Decides, intercepted, execute_many_hitl_lem, context_hook, context_hook-Decides,
}
use agentverse.React.Cycle.{reconcile_and_order_results}
use agentverse.React.Cycle.Results.{order_of}
use agentverse.React.Cycle.Execution.{own, reconcile-execute_many}
use agentverse.React.Strategy.{Skeleton, State, prepare_buffer, run_with_active_tools}
use agentverse.React.Hitl.{run_hitl}
use agentverse.React.Hitl.Laws.{is_done, requests-run_hitl}
use agentverse.React.Hitl.Approval.{needs_person, run_hitl-approval, run_hitl-policy}
use agentverse.React.Hitl.Pairing.{Extends, Resumable, run_hitl-Extends}
use agentverse.React.Hitl.Quiet.{run_hitl-quiet}
use agentverse.React.Budget.{over, run_hitl-budget}
use agentverse.Examples.{
  context, tools, call, second_first, second_first-Reordered, skeleton, start, names, messages,
  answering, primary, world, response,
}

abbrev hook : HitlHook InMemoryQueue
hook = context_hook (in_memory (λ k. "kind")) context 1 0

abbrev hook_law : Decides hook
hook_law = context_hook-Decides (in_memory (λ k. "kind")) context 1 0

abbrev calls : List ToolCall
calls = call "c1" "find_tools" ∷ call "c2" "release" ∷ []

reconcile-execute_many_example :
    reconcile_and_order_results (execute_many second_first tools calls) (order_of calls)
    ≡ map (own tools) calls
unfolding string_eq execute Registry.new Registry.register get insert
reconcile-execute_many_example =
    reconcile-execute_many tools second_first second_first-Reordered calls (refl, (refl, tt))
      (refl, (refl, tt))

execute_many_hitl_lem_example :
    (any (intercepted hook hook_law) calls ≡ true
      → (is_ok (execute_many_hitl hook second_first tools calls Queue.new).0 ≡ false)
        × ((execute_many_hitl hook second_first tools calls Queue.new).2 ≡ []))
    × (any (intercepted hook hook_law) calls ≡ false
        → execute_many_hitl hook second_first tools calls Queue.new
          ≡ (ok (execute_many second_first tools calls), Queue.new, calls))
execute_many_hitl_lem_example =
    execute_many_hitl_lem hook hook_law second_first tools calls Queue.new

run_hitl-approval_example : is_done (run_hitl skeleton hook names messages start).0 ≡ false
unfolding due_tool_names required_tool_names from_system_skills string_eq get insert
run_hitl-approval_example =
    run_hitl-approval skeleton (in_memory (λ k. "kind")) context 1 0 names messages start refl

run_hitl-policy_example :
    any (needs_person context) (run_hitl skeleton hook names messages start).1.executed ≡ false
run_hitl-policy_example =
    run_hitl-policy skeleton (in_memory (λ k. "kind")) context 1 0 names messages start refl

run_hitl-Extends_example :
    All
      (Extends (prepare_buffer skeleton messages))
      (run_hitl skeleton hook names messages start).1.requests
    × Resumable (prepare_buffer skeleton messages) (run_hitl skeleton hook names messages start).0
run_hitl-Extends_example = run_hitl-Extends skeleton hook hook_law names messages start tt

requests-run_hitl_example : length (run_hitl skeleton hook names messages start).1.requests ≤ 0 + 5
requests-run_hitl_example = requests-run_hitl skeleton hook hook_law names messages start

-- a hook that asks nobody
abbrev silent : HitlHook InMemoryQueue
silent = record { check_tool = λ name args q. (none, q); required_tool_names = [] }

abbrev silent_law : Decides silent
silent_law = record {
  decides = λ name args. false;
  agrees = λ name args q. refl;
  quiet = λ name args q h. refl;
}

run_hitl-quiet_example :
    run_hitl skeleton silent names messages start
    ≡ run_with_active_tools skeleton messages names start
run_hitl-quiet_example =
    run_hitl-quiet skeleton silent silent_law (λ name args. refl) refl names messages start

abbrev online : State World InMemoryQueue
online = record { world = world; queue = Queue.new; requests = []; executed = [] }

abbrev offline : Skeleton World
offline = record {
  invoke_inner = λ ms definitions w. (ok (response []), w);
  tools = tools;
  max_iterations = 5;
  to_strict_schema = λ schema. ok schema;
  completion = second_first;
  is_blank = λ t. false;
  has_react_template = false;
  preamble = none;
  is_match = λ pattern t. false;
  show_value = λ v. "value";
  show_error = λ e. "error";
  show_count = λ n. "5";
}

run_hitl-budget_example :
    (run_hitl
      (over (answering 429) (alone primary) offline)
      silent
      names
      messages
      online).1.world.requests
    ≤ 15
unfolding capacity
run_hitl-budget_example =
    run_hitl-budget (answering 429) (alone primary) offline silent silent_law names messages online
