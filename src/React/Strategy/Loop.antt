-- ===== src/React/Strategy/Loop.antt =====
-- What the loop keeps: invariants of turns that may depend on the iterations that are left.
use agentverse.Base.{
  ℕ, zero, suc, ◌+◌, ◌≤◌, ◌<>◌, ◌≡◌, refl, ◌⊎◌, inl, inr, String, Option, none, some, List, [], ◌∷◌,
  ◌++◌, length, length-append, Result, ok, err, arith,
}
use agentverse.Core.Error.{AgentError, model, timeout}
use agentverse.Core.Message.{Message}
use agentverse.Core.Model.{GenerateResponse, ToolDefinition}
use agentverse.Core.Strategy.{StrategyOutcome}
use agentverse.Tools.Registry.{tool_definitions_for}
use agentverse.React.Strategy.{
  Skeleton, State, Turn, finish, again, invoke_defined, ask, invoke_with_active_tools,
  check_output_guardrail, loop,
}

abbrev pub exhausted : {W : Type 0} → Skeleton W → Result StrategyOutcome AgentError
exhausted k =
    err (model (timeout ("Max iterations (" <> (k.show_count k.max_iterations <> ") reached"))))

pub Turn-cases :
    {A : Type 0} (t : Turn A)
    → ((r : Result StrategyOutcome AgentError) × (t ≡ finish r)) ⊎ ((a : A) × (t ≡ again a))
Turn-cases (finish r) = inl (r, refl)
Turn-cases (again a) = inr (a, refl)

module _ {W Q A : Type 0} (I : ℕ → A → State W Q → Type 0)
    (P : Result StrategyOutcome AgentError → State W Q → Type 0) where
  -- what a turn may come to, with the iterations that are left behind it
  abbrev pub Kept : ℕ → Turn A → State W Q → Type 0
  Kept left (finish r) s = P r s
  Kept left (again a) s = I left a s

  pub loop-Kept :
      (k : Skeleton W) (step : A → State W Q → Turn A × State W Q)
      → ((left : ℕ) (a : A) (s : State W Q)
          → I (suc left) a s
          → Kept left (step a s).0 (step a s).1)
      → ((a : A) (s : State W Q) → I 0 a s → P (exhausted k) s)
      → (left : ℕ) (a : A) (s : State W Q) → I left a s
      → P (loop k step left a s).0 (loop k step left a s).1
  unfolding loop
  loop-Kept k step keeps ends zero a s h = ends a s h
  loop-Kept k step keeps ends (suc left) a s h = elim (Turn-cases (step a s).0) [
    | inl (r, e) ↦ let p = keeps left a s h in rw (e, loop) (rw e at p)
    | inr (a', e) ↦
        let p = keeps left a s h in
        rw (e, loop) (loop-Kept k step keeps ends left a' (step a s).1 (rw e at p))
  ]

module _ {W Q : Type 0} (k : Skeleton W) where
  -- What asking the model changes: at most one request is sent, and it is the buffer.
  pub record Asked (buf : List Message) (s t : State W Q) : Type 0 where
    pub same_queue : t.queue ≡ s.queue
    pub same_executed : t.executed ≡ s.executed
    pub sent : (t.requests ≡ s.requests) ⊎ (t.requests ≡ s.requests ++ buf ∷ [])
    pub moved :
        (t.world ≡ s.world)
        ⊎ ((d : Option (List ToolDefinition)) × (t.world ≡ (k.invoke_inner buf d s.world).1))

  invoke_defined-Asked :
      (buf : List Message) (ds : Result (List ToolDefinition) String) (s : State W Q)
      → Asked buf s (invoke_defined k buf ds s).1
  unfolding invoke_defined ask
  invoke_defined-Asked buf (err e) s = record {
    same_queue = refl;
    same_executed = refl;
    sent = inl refl;
    moved = inl refl;
  }
  invoke_defined-Asked buf (ok []) s = record {
    same_queue = refl;
    same_executed = refl;
    sent = inr refl;
    moved = inr (none, refl);
  }
  invoke_defined-Asked buf (ok (d ∷ ds)) s = record {
    same_queue = refl;
    same_executed = refl;
    sent = inr refl;
    moved = inr (some (d ∷ ds), refl);
  }

  pub check-state :
      (r : Result GenerateResponse AgentError) (s : State W Q)
      → (check_output_guardrail k (r, s)).1 ≡ s
  unfolding check_output_guardrail
  check-state (ok response) s = refl
  check-state (err e) s = refl

  pub answer-Asked :
      (buf : List Message) (names : List String) (s : State W Q)
      → Asked buf s (check_output_guardrail k (invoke_with_active_tools k buf names s)).1
  unfolding invoke_with_active_tools
  answer-Asked buf names s =
      let ds : Result (List ToolDefinition) String =
        tool_definitions_for k.to_strict_schema k.tools names in
      let x : Result GenerateResponse AgentError × State W Q = invoke_defined k buf ds s in
      rw (check-state x.0 x.1) (invoke_defined-Asked buf ds s)

  pub invoke-Asked :
      (buf : List Message) (names : List String) (s : State W Q)
      → Asked buf s (invoke_with_active_tools k buf names s).1
  unfolding invoke_with_active_tools
  invoke-Asked buf names s =
      invoke_defined-Asked buf (tool_definitions_for k.to_strict_schema k.tools names) s

  pub length-Asked :
      (buf : List Message) (s t : State W Q)
      → Asked buf s t
      → length t.requests ≤ length s.requests + 1
  length-Asked buf s t a = elim a.sent [
    | inl e ↦ ground (arith, e)
    | inr e ↦ ground (arith, e, length-append s.requests (buf ∷ []))
  ]
