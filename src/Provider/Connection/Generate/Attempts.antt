-- ===== src/Provider/Connection/Generate/Attempts.antt =====
-- One round of the loop of `generate`: what it sends, what it returns, and what it does to the breaker.
use agentverse.Base.{ℕ, ◌+◌, ◌≡◌, refl, ◌⊎◌, inl, inr, String, true, Option, Result, ok, arith}
use agentverse.Core.Json.{Json}
use agentverse.Core.Error.{ModelError}
use agentverse.Core.Model.{GenerateResponse}
use agentverse.Provider.Breaker
use agentverse.Provider.Breaker.{CircuitBreaker, closed}
use agentverse.Provider.Connection.{World, Endpoint}
use agentverse.Provider.Connection.Generate.{
  replied, Network, Attempt, return, retry, leave, is_success, attempt_once,
}

abbrev pub world_of : Attempt → World
world_of (return r w) = w
world_of (retry e w) = w
world_of (leave e w) = w

-- To split on a round and keep the equation.
pub Attempt-cases :
    (a : Attempt)
    → ((r : Result GenerateResponse ModelError) × (w : World) × (a ≡ return r w))
      ⊎ (((e : ModelError) × (w : World) × (a ≡ retry e w))
          ⊎ ((e : ModelError) × (w : World) × (a ≡ leave e w)))
Attempt-cases (return r w) = inl (r, w, refl)
Attempt-cases (retry e w) = inr (inl (e, w, refl))
Attempt-cases (leave e w) = inr (inr (e, w, refl))

-- The n-th request was answered with success, by a body that parses to the response.
pub record ServedBy (net : Network) (c : Endpoint) (n : ℕ) (r : GenerateResponse) : Type 0 where
  pub latency : ℕ
  pub status : ℕ
  pub retry_after : Option ℕ
  pub body : String
  pub answered : net.reply n ≡ replied latency status retry_after body
  pub succeeded : is_success status ≡ true
  pub parses : c.provider.parse_response body ≡ ok r

module _ (net : Network) (c : Endpoint) (url : String) (body : Json) (attempt : ℕ) (w : World) where
  pub requests-attempt_once :
      (world_of (attempt_once net c url body attempt w)).requests ≡ w.requests + 1
  unfolding attempt_once
  requests-attempt_once = ground arith

  pub attempt_once-ServedBy :
      (r : GenerateResponse) (w' : World)
      → attempt_once net c url body attempt w ≡ return (ok r) w'
      → ServedBy net c w.requests r
  unfolding attempt_once
  attempt_once-ServedBy r w' h = ground arith

  attempt_once-resets :
      (r : GenerateResponse) (w' : World)
      → attempt_once net c url body attempt w ≡ return (ok r) w'
      → ((w'.breakers c.circuit_breaker).state ≡ closed)
        × ((w'.breakers c.circuit_breaker).consecutive_failures ≡ 0)
  unfolding attempt_once Breaker.record_success
  attempt_once-resets r w' h = ground arith
