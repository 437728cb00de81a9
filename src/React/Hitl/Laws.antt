-- ===== src/React/Hitl/Laws.antt =====
-- What the hook ensures about a whole run of the loop.
use agentverse.Base.{
  ℕ, suc, ◌+◌, ◌≤◌, String, Bool, true, false, ◌||◌, string_eq, ◌≡◌, refl, ◌∙◌, List, [], ◌∷◌, ◌++◌,
  any, contains, is_empty, length, Result, ok, err, arith,
}
use agentverse.Core.Error.{AgentError}
use agentverse.Core.Message.{Message}
use agentverse.Core.Tool.{ToolCall}
use agentverse.Core.Json.{Json}
use agentverse.Core.Strategy.{StrategyOutcome, done, interrupted}
use agentverse.Tools.Execute.{HitlHook}
use agentverse.Tools.Execute.Laws.{Decides, intercepted}
use agentverse.React.Strategy.{Skeleton, State, prepare_buffer}
use agentverse.React.Strategy.Loop.{loop-Kept, length-Asked, exhausted}
use agentverse.React.Hitl.{calls_required, Carried, hitl_turn, run_hitl}
use agentverse.React.Hitl.Turns.{TurnCases, turn-Kept}

any-append :
    {A : Type 0} (p : A → Bool) (xs ys : List A) → any p (xs ++ ys) ≡ (any p xs || any p ys)
any-append p [] ys = refl
any-append p (x ∷ xs) ys = ground (arith, any-append p xs ys)

abbrev pub is_done : Result StrategyOutcome AgentError → Bool
is_done (ok (done answer)) = true
is_done (ok (interrupted i)) = false
is_done (err e) = false

module _ {W Q : Type 0} (k : Skeleton W) (hook : HitlHook Q) (law : Decides hook)
    (names : List String) (messages : List Message) (s : State W Q) where
  -- every invariant of the turns holds of a run
  pub run_hitl-Kept :
      (I : ℕ → Carried → State W Q → Type 0)
      (P : Result StrategyOutcome AgentError → State W Q → Type 0)
      → ((left : ℕ) (buf : List Message) (called : Bool) (t : State W Q)
          → I (suc left) (buf, called) t
          → TurnCases k hook law names I P left buf called t)
      → ((a : Carried) (t : State W Q) → I 0 a t → P (exhausted k) t)
      → I k.max_iterations (prepare_buffer k messages, is_empty hook.required_tool_names) s
      → P (run_hitl k hook names messages s).0 (run_hitl k hook names messages s).1
  unfolding run_hitl
  run_hitl-Kept I P keeps ends starts =
      loop-Kept I P k (hitl_turn k hook names)
        (λ left a t h. turn-Kept k hook law names I P left a.0 a.1 t (keeps left a.0 a.1 t h)) ends
        k.max_iterations (prepare_buffer k messages, is_empty hook.required_tool_names) s starts

  -- With a hook that decides on a call by the call alone, a run of the loop asks the model at most as often as it has iterations.
  pub requests-run_hitl :
      length (run_hitl k hook names messages s).1.requests ≤ length s.requests + k.max_iterations
  requests-run_hitl =
      let limit : ℕ = length s.requests + k.max_iterations in
      run_hitl-Kept (λ left a t. length t.requests + left ≤ limit)
        (λ r t. length t.requests ≤ limit)
        (λ left buf called t h. record {
          failed = λ e u a. omega (arith, h, length-Asked k buf t u a);
          round = λ response calls u a e c. omega (arith, h, length-Asked k buf t u a);
          stopped = λ i calls q u a c. omega (arith, h, length-Asked k buf t u a);
          retried = λ response u a n e. omega (arith, h, length-Asked k buf t u a);
          answered = λ answer u a c. omega (arith, h, length-Asked k buf t u a);
        })
        (λ a t h. omega (arith, h)) (omega arith)

  -- No call that the hook intercepts is ever executed by the run.
  pub run_hitl-spares :
      any (intercepted hook law) s.executed ≡ false
      → any (intercepted hook law) (run_hitl k hook names messages s).1.executed ≡ false
  run_hitl-spares none_yet =
      run_hitl-Kept (λ left a t. any (intercepted hook law) t.executed ≡ false)
        (λ r t. any (intercepted hook law) t.executed ≡ false)
        (λ left buf called t h. record {
          failed = λ e u a. rw a.same_executed h;
          round = λ response calls u a e c.
              any-append (intercepted hook law) u.executed calls
              ∙ ground (arith, a.same_executed, h, c);
          stopped = λ i calls q u a c.
              any-append (intercepted hook law) u.executed [] ∙ ground (arith, a.same_executed, h);
          retried = λ response u a n e. rw a.same_executed h;
          answered = λ answer u a c. rw a.same_executed h;
        })
        (λ a t h. h) none_yet

  requires-any :
      ((name : String) (args : Json)
        → contains hook.required_tool_names name ≡ true
        → law.decides name args ≡ true)
      → (calls : List ToolCall) → any (intercepted hook law) calls ≡ false
      → calls_required hook.required_tool_names calls ≡ false
  requires-any due [] h = refl
  requires-any due (c ∷ calls) h = ground (arith, h, due c.name c.args, requires-any due calls)

  -- Where the hook intercepts each tool that it requires, and requires one, the run never answers: it
  -- suspends for an approval, or it fails.
  pub run_hitl-due :
      ((name : String) (args : Json)
        → contains hook.required_tool_names name ≡ true
        → law.decides name args ≡ true)
      → is_empty hook.required_tool_names ≡ false
      → is_done (run_hitl k hook names messages s).0 ≡ false
  run_hitl-due due some_required =
      run_hitl-Kept (λ left a t. a.1 ≡ false) (λ r t. is_done r ≡ false)
        (λ left buf called t h. record {
          failed = λ e u a. refl;
          round = λ response calls u a e c. ground (arith, h, requires-any due calls c);
          stopped = λ i calls q u a c. refl;
          retried = λ response u a n e. n;
          answered = λ answer u a c. cc (rw h at c);
        })
        (λ a t h. refl) some_required
