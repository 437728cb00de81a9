-- ===== src/Provider/Connection/Generate.antt =====
-- `ConnectionManager::generate`. What the network answers to the n-th request is a parameter, and so
-- is the text of a status. An HTTP client's connection pool and the headers are not modelled.
pub mod Attempts
pub mod Laws
pub mod Exhaustion
pub mod Origin
use agentverse.Base.{
  ℕ, zero, suc, ◌+◌, ◌-◌, ◌*◌, ◌^◌, min, String, ◌<>◌, Bool, true, false, ◌&&◌, ◌==◌, nat_eq,
  string_eq, ltb, leb, if◌then◌else◌, Option, none, some, List, [], ◌∷◌, ◌++◌, Result, ok, err,
}
use agentverse.Core.Json.{Json}
use agentverse.Core.Error.{ModelError}
use agentverse.Core.Model.{UsageStats, GenerateRequest, GenerateResponse}
use agentverse.Provider.Breaker
use agentverse.Provider.Breaker.{CircuitBreaker}
use agentverse.Provider.Connection.{
  RetryReason, Effect, sent, slept, circuit_open, fallback, retried, called, World, set_breaker,
  Endpoint, ConnectionManager, alone, backed, backoff_ms, rate_limit_backoff_ms,
  clamp_retry_after_ms,
}

-- The answer to a request, with the nanoseconds that it took: an error of `send`, an error of
-- `text`, or a status with the seconds of a `Retry-After` header that is a u64, and the body.
pub data Reply : Type 0 where
  send_failed : (latency : ℕ) (error : String) → Reply
  unreadable : (latency : ℕ) (error : String) → Reply
  replied : (latency status : ℕ) (retry_after : Option ℕ) (body : String) → Reply

pub record Network : Type 0 where
  pub reply : ℕ → Reply
  pub show_status : ℕ → String

abbrev pub Answer : Type 0
Answer = Result GenerateResponse ModelError × World

-- How one round of the loop ends: it returns, goes to the next round, or leaves for the fallback.
pub data Attempt : Type 0 where
  return : Result GenerateResponse ModelError → World → Attempt
  retry leave : ModelError → World → Attempt

abbrev pub emit : Effect → World → World
emit e w = record w { effects = w.effects ++ e ∷ [] }

abbrev pub wait : ℕ → World → World
wait nanos w = record w { now = w.now + nanos }

abbrev pub is_success : ℕ → Bool
is_success status = leb 200 status && leb status 299

-- what the breaker's methods do under its lock
abbrev pub fail_breaker : Endpoint → World → World
fail_breaker c w =
    set_breaker c.circuit_breaker (Breaker.record_failure w.now (w.breakers c.circuit_breaker)) w

abbrev pub reset_breaker : Endpoint → World → World
reset_breaker c w =
    set_breaker c.circuit_breaker (Breaker.record_success (w.breakers c.circuit_breaker)) w

abbrev record_llm_call : Endpoint → Option UsageStats → Option String → World → World
record_llm_call c usage error w = emit (called c.provider.name c.model_name usage error) w

-- `sleep`
abbrev sleep : ℕ → World → World
sleep ms w = wait (ms * 10 ^ 6) (emit (slept ms) w)

retry_after_ms : Option ℕ → Option ℕ
unfolding clamp_retry_after_ms
retry_after_ms none = none
retry_after_ms (some secs) = some (clamp_retry_after_ms (min (secs * 1000) (2 ^ 64 - 1)))

or_else : Option ℕ → ℕ → ℕ
or_else none d = d
or_else (some ms) d = ms

-- the pause before the next round, where there is one
pause : Endpoint → ℕ → RetryReason → ℕ → World → World
pause c attempt reason ms w =
    if ltb attempt c.max_retries then sleep ms (emit (retried reason) w) else w

-- a fallback that is tried, or the error that is returned without one
divert : Endpoint → Option (World → Answer) → ModelError → String → World → Answer
divert c none e error_type w = (err e, record_llm_call c none (some error_type) w)
divert c (some next) e error_type w = next (emit (fallback c.provider.name) w)

parsed : Endpoint → Result GenerateResponse ModelError → World → Answer
parsed c (ok response) w =
    (ok response, record_llm_call c (some response.usage) none (reset_breaker c w))
parsed c (err e) w = (err e, record_llm_call c none (some "invalid_response") (fail_breaker c w))

last_or_no_response : Option ModelError → ModelError
last_or_no_response none = ModelError.api_error "No response"
last_or_no_response (some e) = e

error_type : ModelError → String
error_type (ModelError.rate_limited s) = "rate_limited"
error_type _ = "api_error"

-- what follows the loop
exhausted : Endpoint → Option (World → Answer) → Option ModelError → World → Answer
unfolding divert last_or_no_response error_type
exhausted c next last_error w =
    let e = last_or_no_response last_error in divert c next e (error_type e) w

request_url : Endpoint → String
request_url c =
    if c.provider.name == "gemini"
    then c.api_base <> (c.provider.endpoint_path c.model_name <> ("?key=" <> c.api_key))
    else c.api_base <> c.provider.endpoint_path c.model_name

refused : Endpoint → Option (World → Answer) → World → Answer
refused c none w =
    (err (ModelError.circuit_open "Circuit breaker is open"), emit (circuit_open c.provider.name) w)
refused c (some next) w =
    next (emit (fallback c.provider.name) (emit (circuit_open c.provider.name) w))

module _ (net : Network) where
  on_reply : Endpoint → ℕ → ℕ → Option ℕ → String → World → Attempt
  unfolding retry_after_ms or_else pause parsed rate_limit_backoff_ms
  on_reply c attempt status retry_after body w =
      if status == 429
      then retry (ModelError.rate_limited body) (
          pause c attempt RetryReason.rate_limited
            (or_else (retry_after_ms retry_after) (rate_limit_backoff_ms c attempt))
            (fail_breaker c w))
      else if is_success status
      then (let (r, w') = parsed c (c.provider.parse_response body) w in return r w')
      else leave (ModelError.api_error ("HTTP " <> (net.show_status status <> (": " <> body))))
          (fail_breaker c w)

  on_outcome : Endpoint → ℕ → Reply → World → Attempt
  unfolding on_reply pause backoff_ms
  on_outcome c attempt (send_failed latency error) w = retry (ModelError.api_error error) (
      pause c attempt RetryReason.transport (backoff_ms c attempt)
        (fail_breaker c (wait latency w)))
  on_outcome c attempt (unreadable latency error) w =
      return (err (ModelError.api_error error))
        (record_llm_call c none (some "api_error") (wait latency w))
  on_outcome c attempt (replied latency status retry_after body) w =
      on_reply c attempt status retry_after body (wait latency w)

  -- one round of the loop
  pub attempt_once : Endpoint → String → Json → ℕ → World → Attempt
  unfolding on_outcome
  attempt_once c url body attempt w =
      on_outcome c attempt (net.reply w.requests)
        (record (emit (sent url body) w) { requests = w.requests + 1 })

  -- `for attempt in attempt..=max_retries`, with `left` rounds to go
  pub attempts :
      Endpoint
      → Option (World → Answer)
      → String
      → Json
      → (left attempt : ℕ) → Option ModelError
      → World
      → Answer
  attempts c next url body zero attempt last_error w = exhausted c next last_error w
  attempts c next url body (suc left) attempt last_error w =
      elim (attempt_once c url body attempt w) [
        | return r w' ↦ (r, w')
        | leave e w' ↦ divert c next e "api_error" w'
        | retry e w' ↦ attempts c next url body left (attempt + 1) (some e) w'
      ]

  -- the steps behind the check of the breaker
  call : Endpoint → Option (World → Answer) → Result Json ModelError → World → Answer
  call c next (err e) w = (err e, w)
  call c next (ok body) w = attempts c next (request_url c) body (c.max_retries + 1) 0 none w

  generate_with : Endpoint → Option (World → Answer) → GenerateRequest → World → Answer
  generate_with c next request w =
      let (b, admitted) = Breaker.can_execute w.now (w.breakers c.circuit_breaker) in
      let w' = set_breaker c.circuit_breaker b w in
      if admitted
      then call c next (c.provider.build_request c.model_name request) w'
      else refused c next w'

  unfoldable pub generate : ConnectionManager → GenerateRequest → World → Answer
  unfolding generate_with refused call request_url attempts attempt_once exhausted divert
  generate (alone c) request w = generate_with c none request w
  generate (backed c m) request w = generate_with c (some (generate m request)) request w
