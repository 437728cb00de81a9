-- ===== src/Subagent/Laws.antt =====
-- `SubAgentExecutor` keeps to the step budget.
use agentverse.Base.{
  ℕ, zero, suc, ◌+◌, ◌≤◌, ◌≡◌, refl, Bool-cases, String, List, length, Result, ok, err, arith, ltb,
  inl, inr,
}
use agentverse.Core.Error.{AgentError}
use agentverse.Core.Message.{Message}
use agentverse.Core.Model.{UsageStats, GenerateResponse}
use agentverse.Tools.Registry.{tool_names}
use agentverse.React.Cycle.{CycleAction, tool_calls, error, action_from_response}
use agentverse.React.Cycle as Cycle
use agentverse.React.Strategy.{
  Skeleton, invoke_with_active_tools, check_output_guardrail, prepare_buffer,
}
use agentverse.React.Strategy.Loop.{check-state, invoke-Asked, length-Asked}
use agentverse.Subagent.{
  Budget, SubAgentResult, SubAgentError, Step, ends, goes_on, Work, act, guarded, on_response, step,
  turn, run_from, tokens_used, add_usage, run_cycle, no_usage,
}

unfoldable pub steps_of : Result SubAgentResult SubAgentError → ℕ
steps_of (ok r) = r.steps
steps_of (err e) = 0

-- how many steps an outcome of step `n` may name
Named : ℕ → Step → Type 0
unfolding steps_of
Named n (ends r) = steps_of r ≤ n
Named n (goes_on buf usage) = Unit {0}

module _ {W : Type 0} (k : Skeleton W) where
  act-requests :
      (n : ℕ) (buf : List Message) (usage : UsageStats) (response : GenerateResponse)
      (action : CycleAction) (s : Work W)
      → ((act k n buf usage response action s).1.requests ≡ s.requests)
        × Named n (act k n buf usage response action s).0
  unfolding act Named
  act-requests n buf usage response (tool_calls calls) s = (refl, tt)
  act-requests n buf usage response (Cycle.done answer) s = ground arith
  act-requests n buf usage response (error message) s = ground arith

  guarded-requests :
      (n : ℕ) (buf : List Message) (usage : UsageStats) (r : Result GenerateResponse AgentError)
      (s : Work W)
      → ((guarded k n buf usage (r, s)).1.requests ≡ s.requests)
        × Named n (guarded k n buf usage (r, s)).0
  unfolding guarded Named
  guarded-requests n buf usage (err e) s = ground arith
  guarded-requests n buf usage (ok response) s =
      act-requests n buf usage response (action_from_response k.is_blank response) s

  on_response-requests :
      (n : ℕ) (buf : List Message) (usage : UsageStats) (r : Result GenerateResponse AgentError)
      (s : Work W)
      → ((on_response k n buf usage (r, s)).1.requests ≡ s.requests)
        × Named n (on_response k n buf usage (r, s)).0
  unfolding on_response Named
  on_response-requests n buf usage (err e) s = ground arith
  on_response-requests n buf usage (ok response) s =
      let c : Result GenerateResponse AgentError × Work W =
        check_output_guardrail k (ok response, s) in
      let (same, named) = guarded-requests n buf (add_usage usage response.usage) c.0 c.1 in
      (ground (arith, same, check-state k (ok response) s), named)

  step-requests :
      (n : ℕ) (buf : List Message) (usage : UsageStats) (s : Work W)
      → (length (step k n buf usage s).1.requests ≤ length s.requests + 1)
        × Named n (step k n buf usage s).0
  unfolding step
  step-requests n buf usage s =
      let names : List String = tool_names k.tools in
      let asked : Result GenerateResponse AgentError × Work W =
        invoke_with_active_tools k buf names s in
      let (same, named) = on_response-requests n buf usage asked.0 asked.1 in
      (rw same (length-Asked k buf s asked.1 (invoke-Asked k buf names s)), named)

  turn-bounded :
      (again : List Message → UsageStats → Work W → Result SubAgentResult SubAgentError × Work W)
      (left n most : ℕ) (before : Work W) (r : Step × Work W)
      → n ≤ most
      → length r.1.requests ≤ length before.requests + 1
      → Named n r.0
      → ((buf : List Message) (usage : UsageStats) (s : Work W)
          → (length (again buf usage s).1.requests ≤ length s.requests + left)
            × (steps_of (again buf usage s).0 ≤ most))
      → (length (turn k again r).1.requests ≤ length before.requests + suc left)
        × (steps_of (turn k again r).0 ≤ most)
  unfolding turn Named steps_of
  turn-bounded again left n most before (ends r, s) within few named rest = ground arith
  turn-bounded again left n most before (goes_on buf usage, s) within few named rest =
      let (p, q) = rest buf usage s in ground arith

  run_from-bounded :
      (budget : Budget) (left n : ℕ) (buf : List Message) (usage : UsageStats) (s : Work W)
      → (length (run_from k budget left n buf usage s).1.requests ≤ length s.requests + left)
        × (steps_of (run_from k budget left n buf usage s).0 ≤ n + left)
  unfolding run_from steps_of
  run_from-bounded budget zero n buf usage s = ground arith
  run_from-bounded budget (suc left) n buf usage s =
      elim (Bool-cases (ltb budget.max_tokens (tokens_used usage))) [
        | inl e ↦ rw (e, run_from) (ground arith)
        | inr e ↦
            let (few, named) = step-requests (suc n) buf usage s in
            rw (e, run_from)
              (turn-bounded (λ b u t. run_from k budget left (suc n) b u t) left (suc n)
                (n + suc left) s (step k (suc n) buf usage s) (omega arith) few named
                (λ b u t.
                  let (p, q) = run_from-bounded budget left (suc n) b u t in (p, omega arith)))
      ]

  -- Whatever the model answers, a task of a sub-agent sends at most as many requests as its budget has
  -- steps, and the steps its result names are no more than that.
  pub run_cycle-bounded :
      (messages : List Message) (budget : Budget) (s : Work W)
      → (length (run_cycle k messages budget s).1.requests ≤ length s.requests + budget.max_steps)
        × (steps_of (run_cycle k messages budget s).0 ≤ budget.max_steps)
  unfolding run_cycle
  run_cycle-bounded messages budget s =
      ground
        (arith, run_from-bounded budget budget.max_steps 0 (prepare_buffer k messages) no_usage s)
