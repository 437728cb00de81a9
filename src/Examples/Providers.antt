-- ===== src/Examples/Providers.antt =====
-- The theorems on providers at concrete inputs.
use agentverse.Base.{
  ℕ, ◌*◌, ◌-◌, ◌≤◌, true, false, ◌≡◌, ◌↔◌, ◌⊎◌, refl, some, [], ◌∷◌, map, is_ok, string_eq, nat_eq,
  arith,
}
use agentverse.Base.Map.{get}
use agentverse.Core.Json.{null}
use agentverse.Core.Message.{text}
use agentverse.Provider.Breaker
use agentverse.Provider.Breaker.{
  CircuitState, closed, open_circuit, CircuitBreaker, usize_mod, nanos_per_sec, can_execute,
  record_failure, Event, failure, probe, run,
}
use agentverse.Provider.Breaker.Laws.{
  IsValid, new-IsValid, run-IsValid, refuses_iff, open_at_threshold, failed_probe_reopens,
}
use agentverse.Provider.Registry.{
  ResolvedProvider, Settings, Builtins, build, with_builtins, anthropic_factory,
}
use agentverse.Provider.Registry.Laws.{build-key_ok}
use agentverse.Provider.Connection.{alone}
use agentverse.Provider.Connection.Generate.{generate}
use agentverse.Provider.Connection.Generate.Origin.{Serves, generate-Serves}
use agentverse.Provider.Connection.Generate.Exhaustion.{breaker_of, generate-exhausts}
use agentverse.Examples.{response, provider, primary, world, answering, request}

-- a breaker that has failed three times in its first second
abbrev tripped : CircuitBreaker
tripped = record {
  state = open_circuit;
  consecutive_failures = 3;
  threshold = 3;
  last_failure = some 900;
  timeout_secs = 30;
}

tripped-IsValid : IsValid tripped
tripped-IsValid = record { open_since = λ h. (900, refl); tripped = λ h. omega arith }

run-IsValid_example : IsValid (run (failure 1 ∷ probe 2 ∷ []) (Breaker.new 3 30))
run-IsValid_example =
    run-IsValid (failure 1 ∷ probe 2 ∷ []) (Breaker.new 3 30) (omega arith) (new-IsValid 3 30)

refuses_iff_example : ((can_execute 1000 tripped).1 ≡ false) ↔ (
    (tripped.state ≡ open_circuit)
    × ((t : ℕ) × (tripped.last_failure ≡ some t)
        × (1000 - t ≤ tripped.timeout_secs * nanos_per_sec)))
refuses_iff_example = refuses_iff tripped 1000 tripped-IsValid

open_at_threshold_example :
    (run (map failure (1 ∷ 2 ∷ 3 ∷ [])) (Breaker.new 3 30)).state ≡ open_circuit
open_at_threshold_example = open_at_threshold 3 30 (1 ∷ 2 ∷ 3 ∷ []) (omega arith)

failed_probe_reopens_example :
    let c' = record_failure 40000000001 (can_execute 40000000000 tripped).0 in
    (c'.state ≡ open_circuit) × ((can_execute 50000000000 c').1 ≡ false)
failed_probe_reopens_example =
    failed_probe_reopens tripped 40000000000 40000000001 50000000000 tripped-IsValid (omega arith)
      refl (unfold can_execute in refl) (omega arith)

abbrev builtins : Builtins
builtins = record {
  anthropic = provider;
  openai = provider;
  gemini = provider;
  header_ok = λ t. true;
}

abbrev settings : Settings
settings = ("api_key", "k") ∷ ("model_name", "m") ∷ []

abbrev built : ResolvedProvider
built = record {
  provider = provider;
  api_base = "https://api.anthropic.com";
  api_key = "k";
  model_name = "m";
}

build-key_ok_example :
    (builtins.header_ok built.api_key ≡ true)
    ⊎ ((built.api_key ≡ "") × (get "base_url" settings ≡ some built.api_base))
unfolding build with_builtins get string_eq anthropic_factory
build-key_ok_example = build-key_ok builtins settings "anthropic" built refl

generate-Serves_example : Serves (answering 200) (alone primary) 0 (response (text "hello" ∷ []))
unfolding generate can_execute nat_eq string_eq
generate-Serves_example =
    generate-Serves (answering 200) (alone primary) request world
      (generate (answering 200) (alone primary) request world).1 (response (text "hello" ∷ [])) refl

generate-exhausts_example :
    let (r, w') = generate (answering 429) (alone primary) request world in
    (is_ok r ≡ false)
    × (w'.requests ≡ 3)
    × ((breaker_of primary w').consecutive_failures ≡ 3)
    × (3 ≤ 3 → (breaker_of primary w').state ≡ open_circuit)
generate-exhausts_example =
    generate-exhausts (answering 429) primary request world null (λ n. refl)
      (unfold can_execute in refl) refl (omega arith)
