-- ===== src/React/Budget.antt =====
-- The loop over the runner of avs-core: what a whole run costs at the providers.
use agentverse.Base.{ℕ, suc, ◌+◌, ◌*◌, ◌≤◌, String, inl, inr, none, List, arith}
use agentverse.Core.Message.{Message}
use agentverse.Provider.Connection.{World, ConnectionManager}
use agentverse.Provider.Connection.Generate.{Network}
use agentverse.Provider.Connection.Generate.Laws.{capacity, requests-generate}
use agentverse.Provider.Runner.{invoke_inner, request_of}
use agentverse.Tools.Execute.{HitlHook}
use agentverse.Tools.Execute.Laws.{Decides}
use agentverse.React.Strategy.{Skeleton, State}
use agentverse.React.Strategy.Loop.{Asked}
use agentverse.React.Hitl.{run_hitl}
use agentverse.React.Hitl.Laws.{run_hitl-Kept}

-- a skeleton whose runner calls a connection
unfoldable pub over : Network → ConnectionManager → Skeleton World → Skeleton World
unfolding invoke_inner
over net connection k = record k {
  invoke_inner = λ messages tools w. invoke_inner net connection messages tools none w;
}

module _ (net : Network) (connection : ConnectionManager) (k : Skeleton World) where
  spent :
      {Q : Type 0} (buf : List Message) (s t : State World Q)
      → Asked (over net connection k) buf s t
      → t.world.requests ≤ s.world.requests + capacity connection
  unfolding over invoke_inner
  spent buf s t a = elim a.moved [
    | inl e ↦ ground (arith, e)
    | inr (d, e) ↦
        ground (arith, e, requests-generate net connection (request_of buf d none) s.world)
  ]

  tight :
      {Q : Type 0} {limit : ℕ} (t u : State World Q) (left : ℕ)
      → t.world.requests + suc left * capacity connection ≤ limit
      → u.world.requests ≤ t.world.requests + capacity connection
      → u.world.requests + left * capacity connection ≤ limit
  tight t u left h a = omega (arith, h, a)

  loose :
      {Q : Type 0} {limit : ℕ} (t u : State World Q) (left : ℕ)
      → t.world.requests + suc left * capacity connection ≤ limit
      → u.world.requests ≤ t.world.requests + capacity connection
      → u.world.requests ≤ limit
  loose t u left h a = omega (arith, tight t u left h a)

  -- With a hook that decides on a call by the call alone, a run sends at most as many requests to the
  -- providers as it has iterations, times the attempts of the whole chain of fallbacks.
  pub run_hitl-budget :
      {Q : Type 0} (hook : HitlHook Q) (law : Decides hook) (names : List String)
      (messages : List Message) (s : State World Q)
      → (run_hitl (over net connection k) hook names messages s).1.world.requests
        ≤ s.world.requests + k.max_iterations * capacity connection
  unfolding over
  run_hitl-budget hook law names messages s =
      let c : ℕ = capacity connection in
      let limit : ℕ = s.world.requests + k.max_iterations * c in
      run_hitl-Kept (over net connection k) hook law names messages s
        (λ left a t. t.world.requests + left * c ≤ limit) (λ r t. t.world.requests ≤ limit)
        (λ left buf called t h. record {
          failed = λ e u a. loose t u left h (spent buf t u a);
          round = λ response calls u a e i. tight t u left h (spent buf t u a);
          stopped = λ i calls q u a e. loose t u left h (spent buf t u a);
          retried = λ response u a n e. tight t u left h (spent buf t u a);
          answered = λ answer u a e. loose t u left h (spent buf t u a);
        })
        (λ a t h. omega (arith, h)) (omega arith)
