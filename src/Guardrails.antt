-- ===== src/Guardrails.antt =====
-- avs-guardrails: what may go in, what may come out, and how often.
pub mod RateLimiter
pub mod Patterns
pub mod ActionGuard
