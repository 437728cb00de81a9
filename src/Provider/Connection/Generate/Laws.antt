-- ===== src/Provider/Connection/Generate/Laws.antt =====
-- What a whole call of `generate` sends, where its answer comes from, and what it leaves behind.
use agentverse.Base.{
  ℕ, zero, suc, ◌+◌, ◌≤◌, ap, inl, inr, String, Option, none, some, Result, ok, err, arith,
  Bool-cases,
}
use agentverse.Core.Json.{Json}
use agentverse.Core.Error.{ModelError}
use agentverse.Core.Model.{GenerateRequest}
use agentverse.Provider.Breaker
use agentverse.Provider.Breaker.{CircuitBreaker, closed}
use agentverse.Provider.Connection.{World, Endpoint, ConnectionManager, alone, backed}
use agentverse.Provider.Connection.Generate.{
  Network, Answer, attempt_once, attempts, exhausted, divert, refused, call, generate_with,
  generate, request_url,
}
use agentverse.Provider.Connection.Generate.Attempts.{
  world_of, Attempt-cases, requests-attempt_once,
}

-- The most requests that a manager can send: each endpoint of its chain has its retries and one.
unfoldable pub capacity : ConnectionManager → ℕ
capacity (alone c) = c.max_retries + 1
capacity (backed c m) = c.max_retries + 1 + capacity m

-- What a fallback spends is at most `k` requests.
abbrev Spends : Option (World → Answer) → ℕ → Type 0
Spends none k = Unit
Spends (some next) k = (w : World) → (next w).1.requests ≤ w.requests + k

requests-divert :
    (k : ℕ) (next : Option (World → Answer)) (c : Endpoint) (e : ModelError) (t : String)
    (w : World)
    → Spends next k
    → (divert c next e t w).1.requests ≤ w.requests + k
unfolding divert
requests-divert k none c e t w frugal = omega arith
requests-divert k (some next) c e t w frugal = frugal _

requests-refused :
    (k : ℕ) (next : Option (World → Answer)) (c : Endpoint) (w : World)
    → Spends next k
    → (refused c next w).1.requests ≤ w.requests + k
unfolding refused
requests-refused k none c w frugal = omega arith
requests-refused k (some next) c w frugal = frugal _

module _ (net : Network) (c : Endpoint) (next : Option (World → Answer)) where
  requests-attempts :
      (k : ℕ) (url : String) (body : Json) (left attempt : ℕ) (last : Option ModelError) (w : World)
      → Spends next k
      → (attempts net c next url body left attempt last w).1.requests ≤ w.requests + left + k
  unfolding attempts exhausted
  requests-attempts k url body zero attempt last w frugal =
      omega (arith, requests-divert k next c _ _ w frugal)
  requests-attempts k url body (suc left) attempt last w frugal =
      let one = requests-attempt_once net c url body attempt w in
      elim (Attempt-cases (attempt_once net c url body attempt w)) [
        | inl (r, w', e) ↦ rw (e, attempts) (omega (arith, ap (λ a. (world_of a).requests) e, one))
        | inr (inl (x, w', e)) ↦
            rw (e, attempts)
              (omega (
                arith,
                ap (λ a. (world_of a).requests) e,
                one,
                requests-attempts k url body left (attempt + 1) (some x) w' frugal,
              ))
        | inr (inr (x, w', e)) ↦
            rw (e, attempts)
              (omega (
                arith,
                ap (λ a. (world_of a).requests) e,
                one,
                requests-divert k next c x "api_error" w' frugal,
              ))
      ]

  requests-call :
      (k : ℕ) (built : Result Json ModelError) (w : World)
      → Spends next k
      → (call net c next built w).1.requests ≤ w.requests + (c.max_retries + 1) + k
  unfolding call
  requests-call k (err e) w frugal = omega arith
  requests-call k (ok body) w frugal =
      requests-attempts k (request_url c) body (c.max_retries + 1) 0 none w frugal

  requests-generate_with :
      (k : ℕ) (request : GenerateRequest) (w : World)
      → Spends next k
      → (generate_with net c next request w).1.requests ≤ w.requests + (c.max_retries + 1) + k
  unfolding generate_with
  requests-generate_with k request w frugal =
      elim (Bool-cases (Breaker.can_execute w.now (w.breakers c.circuit_breaker)).1) [
        | inl admitted ↦ rw admitted (requests-call k _ _ frugal)
        | inr shut ↦ rw shut (omega (arith, requests-refused k next c _ frugal))
      ]

-- A call sends at most as many requests as the chain of managers has retries and endpoints, whatever
-- the network answers and whatever the state of the breakers.
pub requests-generate :
    (net : Network) (m : ConnectionManager) (request : GenerateRequest) (w : World)
    → (generate net m request w).1.requests ≤ w.requests + capacity m
unfolding generate capacity
requests-generate net (alone c) request w =
    omega (arith, requests-generate_with net c none 0 request w tt)
requests-generate net (backed c m) request w =
    let frugal = requests-generate net m request in
    omega (
      arith,
      requests-generate_with net c (some (generate net m request)) (capacity m) request w frugal,
    )
