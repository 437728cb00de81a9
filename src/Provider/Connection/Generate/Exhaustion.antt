-- ===== src/Provider/Connection/Generate/Exhaustion.antt =====
-- What a manager without a fallback does when every answer is one that it retries.
use agentverse.Base.{
  ℕ, zero, suc, ◌+◌, ◌≤◌, ◌<◌, ◌≡◌, refl, ap, ◌∙◌, inl, inr, String, Bool, true, false, Option,
  none, some, ok, is_ok, arith,
}
use agentverse.Core.Json.{Json}
use agentverse.Core.Error.{ModelError}
use agentverse.Core.Model.{GenerateRequest}
use agentverse.Provider.Breaker
use agentverse.Provider.Breaker.{CircuitBreaker, usize_mod, open_circuit}
use agentverse.Provider.Connection.{World, set_breaker, Endpoint, alone}
use agentverse.Provider.Connection.Generate.{
  Reply, send_failed, unreadable, replied, Network, Attempt, retry, attempt_once, attempts,
  exhausted, divert, call, generate_with, generate, request_url,
}
use agentverse.Provider.Connection.Generate.Attempts.{
  world_of, Attempt-cases, requests-attempt_once,
}

-- A transport error, or status 429.
abbrev pub IsRetryable : Reply → Type 0
IsRetryable (send_failed latency error) = Unit
IsRetryable (unreadable latency error) = ⊥
IsRetryable (replied latency status retry_after body) = status ≡ 429

abbrev pub breaker_of : Endpoint → World → CircuitBreaker
breaker_of c w = w.breakers c.circuit_breaker

-- The state in which the retries leave the breaker, after `k` failures more.
record Failed (k : ℕ) (c : Endpoint) (w w' : World) : Type 0 where
  kept_open : (breaker_of c w).state ≡ open_circuit → (breaker_of c w').state ≡ open_circuit
  counted : (breaker_of c w').consecutive_failures ≡ (breaker_of c w).consecutive_failures + k
  kept : (breaker_of c w').threshold ≡ (breaker_of c w).threshold
  tripped :
      0 < k
      → (breaker_of c w).threshold ≤ (breaker_of c w).consecutive_failures + k
      → (breaker_of c w').state ≡ open_circuit

Failed-trans :
    (k : ℕ) (c : Endpoint) (w v w' : World)
    → Failed 1 c w v
    → Failed k c v w'
    → Failed (suc k) c w w'
Failed-trans zero c w v w' f g = record {
  kept_open = λ o. g.kept_open (f.kept_open o);
  counted = omega (arith, f.counted, g.counted);
  kept = g.kept ∙ f.kept;
  tripped = λ _ h. g.kept_open (f.tripped (omega arith) (omega arith));
}
Failed-trans (suc k) c w v w' f g = record {
  kept_open = λ o. g.kept_open (f.kept_open o);
  counted = omega (arith, f.counted, g.counted);
  kept = g.kept ∙ f.kept;
  tripped = λ _ h. g.tripped (omega arith) (omega (arith, f.counted, f.kept));
}

abbrev is_retry : Attempt → Bool
is_retry (retry e w) = true
is_retry _ = false

module _ (net : Network) (c : Endpoint) (url : String) (body : Json)
    (hopeless : (n : ℕ) → IsRetryable (net.reply n)) where
  attempt_once-is_retry :
      (attempt : ℕ) (w : World) → is_retry (attempt_once net c url body attempt w) ≡ true
  unfolding attempt_once
  attempt_once-is_retry attempt w = ground (arith, hopeless w.requests)

  attempt_once-Failed :
      (attempt : ℕ) (w : World)
      → (breaker_of c w).consecutive_failures + 1 < usize_mod
      → Failed 1 c w (world_of (attempt_once net c url body attempt w))
  unfolding attempt_once Breaker.record_failure
  attempt_once-Failed attempt w b = ground (arith, hopeless w.requests)

  attempts-exhaust :
      (left attempt : ℕ) (last : Option ModelError) (w : World)
      → (breaker_of c w).consecutive_failures + left < usize_mod
      → let (r, w') = attempts net c none url body left attempt last w in
        (is_ok r ≡ false) × (w'.requests ≡ w.requests + left) × Failed left c w w'
  unfolding attempts exhausted divert
  attempts-exhaust zero attempt last w b = (
    refl,
    omega arith,
    record { kept_open = λ o. o; counted = omega arith; kept = refl; tripped = λ h. elim h [ ] },
  )
  attempts-exhaust (suc left) attempt last w b =
      let sent = requests-attempt_once net c url body attempt w in
      let one = attempt_once-Failed attempt w (omega arith) in
      elim (Attempt-cases (attempt_once net c url body attempt w)) [
        | inl (r, v, e) ↦ cc (ap is_retry e, attempt_once-is_retry attempt w)
        | inr (inl (x, v, e)) ↦
            let same = ap world_of e in
            let one' : Failed 1 c w v = rw same at one in
            let sent' : v.requests ≡ w.requests + 1 = rw same at sent in
            let (bad, more, later) =
              attempts-exhaust left (attempt + 1) (some x) v (omega (arith, one'.counted)) in
            rw (e, attempts) (bad, omega arith, Failed-trans left c w v _ one' later)
        | inr (inr (x, v, e)) ↦ cc (ap is_retry e, attempt_once-is_retry attempt w)
      ]

-- The world in which the loop starts: the breaker after its check.
abbrev probed : Endpoint → World → World
probed c w = set_breaker c.circuit_breaker (Breaker.can_execute w.now (breaker_of c w)).0 w

probed-keeps :
    (c : Endpoint) (w : World)
    → ((breaker_of c (probed c w)).consecutive_failures ≡ (breaker_of c w).consecutive_failures)
      × ((breaker_of c (probed c w)).threshold ≡ (breaker_of c w).threshold)
unfolding Breaker.can_execute
probed-keeps c w = ground arith

generate_with-admitted :
    (net : Network) (c : Endpoint) (request : GenerateRequest) (w : World) (body : Json)
    → (Breaker.can_execute w.now (breaker_of c w)).1 ≡ true
    → c.provider.build_request c.model_name request ≡ ok body
    → generate_with net c none request w
      ≡ attempts net c none (request_url c) body (c.max_retries + 1) 0 none (probed c w)
unfolding generate_with call
generate_with-admitted net c request w body admitted built = rw (admitted, built, call)

-- If the breaker admits the call, the request can be built and every answer is a transport error or
-- a 429, then a manager without a fallback sends one request for each retry and one more, returns an
-- error, and its breaker has counted each of them as a failure and is open if that reaches its
-- threshold. The breaker's count has room for them.
pub generate-exhausts :
    (net : Network) (c : Endpoint) (request : GenerateRequest) (w : World) (body : Json)
    → ((n : ℕ) → IsRetryable (net.reply n))
    → (Breaker.can_execute w.now (breaker_of c w)).1 ≡ true
    → c.provider.build_request c.model_name request ≡ ok body
    → (breaker_of c w).consecutive_failures + (c.max_retries + 1) < usize_mod
    → let (r, w') = generate net (alone c) request w in
      (is_ok r ≡ false)
      × (w'.requests ≡ w.requests + (c.max_retries + 1))
      × ((breaker_of c w').consecutive_failures
          ≡ (breaker_of c w).consecutive_failures + (c.max_retries + 1))
      × ((breaker_of c w).threshold ≤ (breaker_of c w).consecutive_failures + (c.max_retries + 1)
          → (breaker_of c w').state ≡ open_circuit)
unfolding generate
generate-exhausts net c request w body hopeless admitted built b =
    let same = probed-keeps c w in
    let (bad, more, failed) =
      attempts-exhaust net c (request_url c) body hopeless (c.max_retries + 1) 0 none (probed c w)
        (omega (arith, same.0)) in
    rw (generate_with-admitted net c request w body admitted built) (
      bad,
      more,
      omega (arith, failed.counted, same.0),
      λ reached. failed.tripped (omega arith) (omega (arith, same.0, same.1)),
    )
