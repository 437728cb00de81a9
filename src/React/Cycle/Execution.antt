-- ===== src/React/Cycle/Execution.antt =====
-- The results of concurrent calls, as they go back to the model.
use agentverse.Base.{
  Bool, true, false, string_eq, ◌≡◌, refl, List, [], ◌∷◌, map, arith, Reordered, subst,
}
use agentverse.Core.Tool.{ToolCall, ToolCallResult}
use agentverse.Tools.Registry.{Run, finished, panicked, ToolRegistry}
use agentverse.Tools.Execute
use agentverse.Tools.Execute.{
  Joined, returned, join_error, drain, execute_many, execute, resolve, spawn,
}
use agentverse.React.Cycle.{lost, reconcile_and_order_results}
use agentverse.React.Cycle.Results.{order_of, ids, result_ids, Distinct, named, reconcile-drain}

abbrev pub finishes : Run → Bool
finishes (finished result) = true
finishes panicked = false

own_of : ToolCall → Run → ToolCallResult
own_of c (finished result) = record { id = c.id; name = c.name; result = result }
own_of c panicked = lost c.id c.name

-- the result of running one call alone
unfoldable pub own : ToolRegistry → ToolCall → ToolCallResult
unfolding own_of
own r c = own_of c (execute r c.name c.args)

abbrev pub AllFinish : ToolRegistry → List ToolCall → Type 0
AllFinish r [] = Unit
AllFinish r (c ∷ calls) = (finishes (execute r c.name c.args) ≡ true) × AllFinish r calls

module _ (r : ToolRegistry) where
  own_of-call :
      (c : ToolCall) (run : Run) → ((own_of c run).id ≡ c.id) × ((own_of c run).name ≡ c.name)
  unfolding own_of
  own_of-call c (finished result) = (refl, refl)
  own_of-call c panicked = (refl, refl)

  own-call : (c : ToolCall) → ((own r c).id ≡ c.id) × ((own r c).name ≡ c.name)
  unfolding own
  own-call c = own_of-call c (execute r c.name c.args)

  named-own : (calls : List ToolCall) → named (map (own r) calls) ≡ order_of calls
  named-own [] = refl
  named-own (c ∷ calls) = ground (arith, (own-call c).0, (own-call c).1, named-own calls)

  result_ids-own : (calls : List ToolCall) → result_ids (map (own r) calls) ≡ ids (order_of calls)
  result_ids-own [] = refl
  result_ids-own (c ∷ calls) = ground (arith, (own-call c).0, result_ids-own calls)

  join_of-own :
      (c : ToolCall) (run : Run)
      → finishes run ≡ true
      → Execute.join_of c run ≡ returned (own_of c run)
  unfolding own_of Execute.join_of
  join_of-own c (finished result) h = refl
  join_of-own c panicked h = ground (arith, h)

  tasks-own :
      (calls : List ToolCall)
      → AllFinish r calls
      → map spawn (resolve r calls) ≡ map returned (map (own r) calls)
  unfolding resolve spawn own execute
  tasks-own [] h = refl
  tasks-own (c ∷ calls) h =
      ground (arith, join_of-own c (execute r c.name c.args) h.0, tasks-own calls h.1)

  -- Where the calls have distinct identifiers and no tool panics, each call gets its own result, the
  -- one that running it alone returns, in the order of the calls and whatever the order in which the
  -- concurrent tasks end.
  pub reconcile-execute_many :
      (completion : List Joined → List Joined)
      → ((js : List Joined) → Reordered js (completion js))
      → (calls : List ToolCall) → Distinct (ids (order_of calls))
      → AllFinish r calls
      → reconcile_and_order_results (execute_many completion r calls) (order_of calls)
        ≡ map (own r) calls
  unfolding execute_many
  reconcile-execute_many completion fair calls d h =
      let p : Reordered (map returned (map (own r) calls))
          (completion (map spawn (resolve r calls))) =
        (subst (λ js. Reordered js (completion (map spawn (resolve r calls)))) (tasks-own calls h)
          (fair (map spawn (resolve r calls)))) in
      let e =
        reconcile-drain (map (own r) calls) (completion (map spawn (resolve r calls)))
          (rw (result_ids-own calls) d) p in
      rw (named-own calls) at e
