-- ===== src/Examples/Subagents.antt =====
-- The theorem on sub-agents at a concrete input: a budget of two steps.
use agentverse.Base.{ℕ, ◌+◌, ◌≤◌, [], length}
use agentverse.Subagent.{Budget, Work, run_cycle}
use agentverse.Subagent.Laws.{steps_of, run_cycle-bounded}
use agentverse.Examples.{skeleton, messages}

abbrev budget : Budget
budget = record { max_steps = 2; max_tokens = 100; timeout_secs = 60 }

abbrev start : Work ℕ
start = record { world = 0; queue = tt; requests = []; executed = [] }

run_cycle-bounded_example :
    (length (run_cycle skeleton messages budget start).1.requests
      ≤ length start.requests + budget.max_steps)
    × (steps_of (run_cycle skeleton messages budget start).0 ≤ budget.max_steps)
run_cycle-bounded_example = run_cycle-bounded skeleton messages budget start
