-- ===== src/Provider/Breaker/Laws.antt =====
-- What holds of a circuit breaker over every sequence of calls.
use agentverse.Base.{
  ℕ, ◌+◌, ◌-◌, ◌*◌, ◌≤◌, ◌<◌, ◌≡◌, ◌≢◌, refl, ◌↔◌, true, false, some, List, [], ◌∷◌, map, length,
  arith, ltb, leb, if◌then◌else◌, ◌&&◌,
}
use agentverse.Provider.Breaker.{
  closed, open_circuit, CircuitBreaker, usize_mod, nanos_per_sec, new, can_execute, record_failure,
  Event, probe, success, failure, step, run,
}

pub record IsValid (c : CircuitBreaker) : Type 0 where
  pub open_since : c.state ≡ open_circuit → (t : ℕ) × (c.last_failure ≡ some t)
  pub tripped : c.state ≢ closed → c.threshold ≤ c.consecutive_failures

pub new-IsValid : (threshold timeout_secs : ℕ) → IsValid (new threshold timeout_secs)
new-IsValid threshold timeout_secs = record { open_since = λ h. cc; tripped = λ h. absurd (h refl) }

step-IsValid :
    (e : Event) (c : CircuitBreaker)
    → c.consecutive_failures + 1 < usize_mod
    → IsValid c
    → IsValid (step e c)
unfolding step
step-IsValid (probe now) c b v = ground arith
step-IsValid success c b v = ground arith
step-IsValid (failure now) c b v = ground arith

failures-step :
    (e : Event) (c : CircuitBreaker)
    → c.consecutive_failures + 1 < usize_mod
    → (step e c).consecutive_failures ≤ c.consecutive_failures + 1
unfolding step
failures-step e c b = ground arith

-- Through every sequence of calls that cannot overflow the count of failures, an open breaker knows
-- when it last failed, and a breaker that is not closed has reached its threshold.
pub run-IsValid :
    (es : List Event) (c : CircuitBreaker)
    → c.consecutive_failures + length es < usize_mod
    → IsValid c
    → IsValid (run es c)
unfolding run
run-IsValid [] c b v = v
run-IsValid (e ∷ es) c b v =
    let small : c.consecutive_failures + 1 < usize_mod = omega arith in
    run-IsValid es (step e c) (omega (arith, failures-step e c small)) (step-IsValid e c small v)

-- A valid breaker refuses a call exactly when it is open and its last failure is not longer ago than
-- its timeout.
pub refuses_iff :
    (c : CircuitBreaker) (now : ℕ)
    → IsValid c
    → ((can_execute now c).1 ≡ false) ↔ (
        (c.state ≡ open_circuit)
        × ((t : ℕ) × (c.last_failure ≡ some t) × (now - t ≤ c.timeout_secs * nanos_per_sec)))
unfolding can_execute
refuses_iff c now v = ground arith

failures_run :
    (t : ℕ) (ts : List ℕ) (c : CircuitBreaker)
    → c.consecutive_failures + length (t ∷ ts) < usize_mod
    → (run (map failure (t ∷ ts)) c).state ≡ (
        if leb c.threshold (c.consecutive_failures + length (t ∷ ts))
        then open_circuit
        else c.state)
unfolding run
failures_run t [] c b = unfold step in ground arith
failures_run t (u ∷ ts) c b =
    let c' = step (failure t) c in
    unfold step in ground (arith, failures_run u ts c' (unfold step in ground arith))

-- From a new breaker, any number of failures with no success between them leaves it open exactly
-- when there was a failure and the failures have reached the threshold, and closed otherwise.
-- The number of failures is below 2 ^ 64.
pub open_at_threshold :
    (threshold timeout_secs : ℕ) (times : List ℕ)
    → length times < usize_mod
    → (run (map failure times) (new threshold timeout_secs)).state
      ≡ (if ltb 0 (length times) && leb threshold (length times) then open_circuit else closed)
unfolding run
open_at_threshold threshold timeout_secs [] b = refl
open_at_threshold threshold timeout_secs (t ∷ ts) b =
    ground (arith, failures_run t ts (new threshold timeout_secs) (omega arith))

-- If an open breaker admits a call and that call fails at the time `failed`, then the breaker is
-- open again, and it refuses every call until the timeout has passed once more.
-- The breaker is valid, and its count of failures has room for one more.
pub failed_probe_reopens :
    (c : CircuitBreaker) (now failed later : ℕ)
    → IsValid c
    → c.consecutive_failures + 1 < usize_mod
    → c.state ≡ open_circuit
    → (can_execute now c).1 ≡ true
    → later - failed ≤ c.timeout_secs * nanos_per_sec
    → let c' = record_failure failed (can_execute now c).0 in
      (c'.state ≡ open_circuit) × ((can_execute later c').1 ≡ false)
unfolding can_execute record_failure
failed_probe_reopens c now failed later v b o admitted early =
    let tripped : c.threshold ≤ c.consecutive_failures = v.tripped (λ e. cc) in
    (ground arith, ground arith)
