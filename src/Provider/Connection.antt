-- ===== src/Provider/Connection.antt =====
-- `ConnectionManager` of avs-core/src/model/connection_manager.rs: its builders. A manager is its own
-- settings and, where one is configured, the manager that it falls back on. An `Arc<Mutex<..>>` of a
-- breaker is its address in the store of `World`, so that managers may share one.
pub mod Generate
use agentverse.Base.{
  ℕ, ◌+◌, ◌-◌, ◌*◌, ◌%◌, ◌^◌, min, String, ◌==◌, nat_eq, if◌then◌else◌, Option, none, some, List,
  [], ◌∷◌, Result, ok, err, ◌>>=◌,
}
use agentverse.Base.Map.{Map}
use agentverse.Core.Error.{ModelError}
use agentverse.Core.Json.{Json}
use agentverse.Core.Model.{UsageStats}
use agentverse.Provider.Breaker
use agentverse.Provider.Breaker.{CircuitBreaker}
use agentverse.Provider.Registry.{
  ModelProvider, ResolvedProvider, Settings, ProviderRegistry, build,
}

pub data RetryReason : Type 0 where
  rate_limited transport : RetryReason

-- What a call does outside the managers, in order: requests, pauses and metrics.
pub data Effect : Type 0 where
  sent : (url : String) (body : Json) → Effect
  slept : (ms : ℕ) → Effect
  circuit_open fallback : (provider : String) → Effect
  retried : RetryReason → Effect
  called : (provider model : String) → Option UsageStats → Option String → Effect

pub record World : Type 0 where
  pub breakers : ℕ → CircuitBreaker
  pub next_breaker : ℕ
  pub now : ℕ
  pub requests : ℕ
  pub effects : List Effect

abbrev pub set_breaker : ℕ → CircuitBreaker → World → World
set_breaker i c w = record w { breakers = λ j. if j == i then c else w.breakers j }

-- `Arc::new(Mutex::new(c))`
abbrev pub alloc_breaker : CircuitBreaker → World → ℕ × World
alloc_breaker c w =
    (w.next_breaker, record (set_breaker w.next_breaker c w) { next_breaker = w.next_breaker + 1 })

pub record Endpoint : Type 0 where
  pub api_base : String
  pub api_key : String
  pub model_name : String
  pub provider : ModelProvider
  pub settings : Settings
  pub circuit_breaker : ℕ
  pub max_retries : ℕ
  pub retry_delay_ms : ℕ

-- the field `fallback`
pub data ConnectionManager : Type 0 where
  alone : Endpoint → ConnectionManager
  backed : Endpoint → ConnectionManager → ConnectionManager

abbrev pub endpoint : ConnectionManager → Endpoint
endpoint (alone c) = c
endpoint (backed c m) = c

abbrev pub set_endpoint : Endpoint → ConnectionManager → ConnectionManager
set_endpoint c (alone d) = alone c
set_endpoint c (backed d m) = backed c m

-- `ConnectionManager::new`
unfoldable pub new : ModelProvider → String → String → String → World → ConnectionManager × World
new provider api_base api_key model_name w =
    let (i, w') = alloc_breaker (Breaker.new 5 30) w in
    (
      alone (record {
        api_base = api_base;
        api_key = api_key;
        model_name = model_name;
        provider = provider;
        settings = [];
        circuit_breaker = i;
        max_retries = 3;
        retry_delay_ms = 500;
      }),
      w',
    )

unfoldable pub from_config :
    String → Settings → ProviderRegistry → World → Result (ConnectionManager × World) ModelError
unfolding build
from_config name settings registry w = do
  resolved ← build registry name settings
  let (i, w') = alloc_breaker (Breaker.new 5 30) w
  ok (
    alone (record {
      api_base = resolved.api_base;
      api_key = resolved.api_key;
      model_name = resolved.model_name;
      provider = resolved.provider;
      settings = settings;
      circuit_breaker = i;
      max_retries = 3;
      retry_delay_ms = 500;
    }),
    w',
  )

unfoldable pub with_retries : ℕ → ℕ → ConnectionManager → ConnectionManager
with_retries max_retries retry_delay_ms m =
    set_endpoint
      (record (endpoint m) { max_retries = max_retries; retry_delay_ms = retry_delay_ms }) m

unfoldable pub with_circuit_breaker : ℕ → ℕ → ConnectionManager → World → ConnectionManager × World
with_circuit_breaker threshold timeout_secs m w =
    let (i, w') = alloc_breaker (Breaker.new threshold timeout_secs) w in
    (set_endpoint (record (endpoint m) { circuit_breaker = i }) m, w')

unfoldable pub with_fallback : ConnectionManager → ConnectionManager → ConnectionManager
with_fallback second m = backed (endpoint m) second

-- The new manager shares the breaker, and has no fallback.
unfoldable pub with_model :
    String → ProviderRegistry → ConnectionManager → Result ConnectionManager ModelError
unfolding build
with_model model_name registry m = do
  resolved ← build registry (endpoint m).provider.name (endpoint m).settings
  ok (alone (record (endpoint m) { model_name = model_name; provider = resolved.provider }))

abbrev u64_max : ℕ
u64_max = 2 ^ 64 - 1

-- `saturating_mul` of u64
abbrev saturating_mul : ℕ → ℕ → ℕ
saturating_mul a b = min (a * b) u64_max

-- `attempt as u32` drops the high bits
unfoldable pub backoff_ms : Endpoint → ℕ → ℕ
backoff_ms c attempt = saturating_mul c.retry_delay_ms (2 ^ min (attempt % 2 ^ 32) 10)

unfoldable pub rate_limit_backoff_ms : Endpoint → ℕ → ℕ
unfolding backoff_ms
rate_limit_backoff_ms c attempt = saturating_mul (backoff_ms c attempt) 4

unfoldable pub clamp_retry_after_ms : ℕ → ℕ
clamp_retry_after_ms ms = min ms 60000
