-- ===== src/Provider/Connection/Generate/Origin.antt =====
-- Where an answer of `generate` comes from, and the breaker that it leaves.
use agentverse.Base.{
  ℕ, zero, suc, ◌+◌, ◌≤◌, ◌≡◌, ap, ◌⊎◌, inl, inr, String, Option, none, some, Result, ok, err,
  arith, Bool-cases,
}
use agentverse.Core.Json.{Json}
use agentverse.Core.Error.{ModelError}
use agentverse.Core.Model.{GenerateRequest, GenerateResponse}
use agentverse.Provider.Breaker
use agentverse.Provider.Breaker.{CircuitBreaker, closed}
use agentverse.Provider.Connection.{World, Endpoint, ConnectionManager, alone, backed}
use agentverse.Provider.Connection.Generate.{
  Network, Answer, attempt_once, attempts, exhausted, divert, refused, call, generate_with,
  generate, request_url,
}
use agentverse.Provider.Connection.Generate.Attempts.{
  world_of, Attempt-cases, ServedBy, requests-attempt_once, attempt_once-ServedBy,
}

-- Some endpoint of the chain got the response in answer to a request, the first of which is `from`.
abbrev pub Serves : Network → ConnectionManager → ℕ → GenerateResponse → Type 0
Serves net (alone c) from r = (n : ℕ) × (from ≤ n) × ServedBy net c n r
Serves net (backed c m) from r = ((n : ℕ) × (from ≤ n) × ServedBy net c n r) ⊎ Serves net m from r

module _ (net : Network) (r : GenerateResponse) where
  -- `Served c next from`: the endpoint got the response, or `next` returned it in a later world.
  abbrev Passed : Option (World → Answer) → ℕ → World → Type 0
  Passed none from w' = ⊥
  Passed (some next) from w' = (v : World) × (from ≤ v.requests) × (next v ≡ (ok r, w'))

  abbrev Got : Endpoint → Option (World → Answer) → ℕ → World → Type 0
  Got c next from w' = ((n : ℕ) × (from ≤ n) × ServedBy net c n r) ⊎ Passed next from w'

  Passed-weaken :
      (next : Option (World → Answer)) (from n : ℕ) (w' : World)
      → from ≤ n
      → Passed next n w'
      → Passed next from w'
  Passed-weaken (some next) from n w' h (v, late, e) = (v, omega arith, e)
  Passed-weaken none from n w' h p = p

  Got-weaken :
      (c : Endpoint) (next : Option (World → Answer)) (from n : ℕ) (w' : World)
      → from ≤ n
      → Got c next n w'
      → Got c next from w'
  Got-weaken c next from n w' h (inl (m, late, s)) = inl (m, omega arith, s)
  Got-weaken c next from n w' h (inr p) = inr (Passed-weaken next from n w' h p)

  divert-Passed :
      (c : Endpoint) (next : Option (World → Answer)) (e : ModelError) (t : String) (w w' : World)
      → divert c next e t w ≡ (ok r, w')
      → Passed next w.requests w'
  unfolding divert
  divert-Passed c none e t w w' h = cc (ap (λ a. a.0) h)
  divert-Passed c (some next) e t w w' h = (_, omega arith, h)

  refused-Passed :
      (c : Endpoint) (next : Option (World → Answer)) (w w' : World)
      → refused c next w ≡ (ok r, w')
      → Passed next w.requests w'
  unfolding refused
  refused-Passed c none w w' h = cc (ap (λ a. a.0) h)
  refused-Passed c (some next) w w' h = (_, omega arith, h)

  module _ (c : Endpoint) (next : Option (World → Answer)) where
    attempts-Got :
        (url : String) (body : Json) (left attempt : ℕ) (last : Option ModelError) (w w' : World)
        → attempts net c next url body left attempt last w ≡ (ok r, w')
        → Got c next w.requests w'
    unfolding attempts exhausted
    attempts-Got url body zero attempt last w w' h = inr (divert-Passed c next _ _ w w' h)
    attempts-Got url body (suc left) attempt last w w' h =
        let one = requests-attempt_once net c url body attempt w in
        elim (Attempt-cases (attempt_once net c url body attempt w)) [
          | inl (a, v, e) ↦
              let same : ◌≡◌ {A = Answer} (a, v) (ok r, w') = rw (e, attempts) at h in
              inl (
                w.requests,
                omega arith,
                attempt_once-ServedBy net c url body attempt w r v (rw (ap (λ p. p.0) same) at e),
              )
          | inr (inl (x, v, e)) ↦
              Got-weaken c next w.requests v.requests w'
                (omega (arith, ap (λ a. (world_of a).requests) e, one))
                (attempts-Got url body left (attempt + 1) (some x) v w' (rw (e, attempts) at h))
          | inr (inr (x, v, e)) ↦ inr (
              Passed-weaken next w.requests v.requests w'
                (omega (arith, ap (λ a. (world_of a).requests) e, one))
                (divert-Passed c next x "api_error" v w' (rw (e, attempts) at h)))
        ]

    call-Got :
        (built : Result Json ModelError) (w w' : World)
        → call net c next built w ≡ (ok r, w')
        → Got c next w.requests w'
    unfolding call
    call-Got (err e) w w' h = cc (ap (λ a. a.0) h)
    call-Got (ok body) w w' h = attempts-Got (request_url c) body (c.max_retries + 1) 0 none w w' h

    generate_with-Got :
        (request : GenerateRequest) (w w' : World)
        → generate_with net c next request w ≡ (ok r, w')
        → Got c next w.requests w'
    unfolding generate_with
    generate_with-Got request w w' h =
        elim (Bool-cases (Breaker.can_execute w.now (w.breakers c.circuit_breaker)).1) [
          | inl admitted ↦ call-Got _ _ w' (rw admitted at h)
          | inr shut ↦ inr (refused-Passed c next _ w' (rw shut at h))
        ]

Serves-weaken :
    (net : Network) (m : ConnectionManager) (from n : ℕ) (r : GenerateResponse)
    → from ≤ n
    → Serves net m n r
    → Serves net m from r
Serves-weaken net (alone c) from n r h (k, late, s) = (k, omega arith, s)
Serves-weaken net (backed c m) from n r h (inl (k, late, s)) = inl (k, omega arith, s)
Serves-weaken net (backed c m) from n r h (inr s) = inr (Serves-weaken net m from n r h s)

-- A response that `generate` returns is what some endpoint of the chain parsed from the body of a
-- successful answer to a request that this call sent or a later one.
pub generate-Serves :
    (net : Network) (m : ConnectionManager) (request : GenerateRequest) (w w' : World)
    (r : GenerateResponse)
    → generate net m request w ≡ (ok r, w')
    → Serves net m w.requests r
unfolding generate
generate-Serves net (alone c) request w w' r h =
    elim (generate_with-Got net r c none request w w' h) [ inl s ↦ s | inr p ↦ absurd p ]
generate-Serves net (backed c m) request w w' r h =
    elim (generate_with-Got net r c (some (generate net m request)) request w w' h) [
      | inl s ↦ inl s
      | inr (v, late, e) ↦ inr (
          Serves-weaken net m w.requests v.requests r late (generate-Serves net m request v w' r e))
    ]
