-- ===== src/Provider.antt =====
-- avs-core/src/model: the table of providers, the circuit breaker, and calls of a provider with
-- retries and fallback.
pub mod Breaker
pub mod Registry
pub mod Connection
pub mod Runner
