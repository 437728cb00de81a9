-- ===== src/Provider/Breaker.antt =====
-- `CircuitBreaker` of avs-core/src/model/connection_manager.rs. An `Instant` is a number of
-- nanoseconds, and the time at which a method runs is its argument `now`. `usize` has 64 bits, and
-- an overflow wraps, as in a release build.
pub mod Laws
use agentverse.Base.{
  ℕ, ◌+◌, ◌-◌, ◌*◌, ◌%◌, ◌^◌, Bool, true, false, Option, none, some, List, [], ◌∷◌, ltb, leb,
  if◌then◌else◌,
}

pub data CircuitState : Type 0 where
  closed open_circuit half_open : CircuitState

pub record CircuitBreaker : Type 0 where
  pub state : CircuitState
  pub consecutive_failures : ℕ
  pub threshold : ℕ
  pub last_failure : Option ℕ
  pub timeout_secs : ℕ

abbrev pub usize_mod : ℕ
usize_mod = 2 ^ 64

abbrev pub nanos_per_sec : ℕ
nanos_per_sec = 10 ^ 9

abbrev pub new : ℕ → ℕ → CircuitBreaker
new threshold timeout_secs = record {
  state = closed;
  consecutive_failures = 0;
  threshold = threshold;
  last_failure = none;
  timeout_secs = timeout_secs;
}

-- `last.elapsed() > Duration::from_secs(timeout_secs)`; `elapsed` stops at 0.
abbrev pub timed_out : ℕ → ℕ → ℕ → Bool
timed_out now timeout_secs last = ltb (timeout_secs * nanos_per_sec) (now - last)

probe_open : ℕ → Option ℕ → CircuitBreaker → CircuitBreaker × Bool
probe_open now none c = (c, false)
probe_open now (some last) c =
    if timed_out now c.timeout_secs last then (record c { state = half_open }, true) else (c, false)

can_execute_in : CircuitState → ℕ → CircuitBreaker → CircuitBreaker × Bool
unfolding probe_open
can_execute_in closed now c = (c, true)
can_execute_in open_circuit now c = probe_open now c.last_failure c
can_execute_in half_open now c = (c, true)

unfoldable pub can_execute : ℕ → CircuitBreaker → CircuitBreaker × Bool
unfolding can_execute_in
can_execute now c = can_execute_in c.state now c

unfoldable pub record_success : CircuitBreaker → CircuitBreaker
record_success c = record c { state = closed; consecutive_failures = 0 }

unfoldable pub record_failure : ℕ → CircuitBreaker → CircuitBreaker
record_failure now c =
    let failures = (c.consecutive_failures + 1) % usize_mod in
    record c {
      consecutive_failures = failures;
      last_failure = some now;
      state = if leb c.threshold failures then open_circuit else c.state;
    }

-- What the callers that share a breaker do with it, in the order in which they get its lock.
pub data Event : Type 0 where
  probe : ℕ → Event
  success : Event
  failure : ℕ → Event

unfoldable pub step : Event → CircuitBreaker → CircuitBreaker
unfolding can_execute record_success record_failure
step (probe now) c = (can_execute now c).0
step success c = record_success c
step (failure now) c = record_failure now c

unfoldable pub run : List Event → CircuitBreaker → CircuitBreaker
unfolding step
run [] c = c
run (e ∷ es) c = run es (step e c)
