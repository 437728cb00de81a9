-- ===== src/Guardrails/RateLimiter.antt =====
-- `RateLimiter` of avs-guardrails/src/rate_limiter.rs. Times are nanoseconds on the monotone clock; the
-- call of `Instant::now` is an argument, and `duration_since` stops at 0 as it does in Rust.
pub mod Laws
use agentverse.Base.{
  ℕ, ◌*◌, ◌-◌, String, ◌<>◌, Bool, ltb, leb, string_eq, if◌then◌else◌, length, retain, Option, none,
  some, List, [], ◌∷◌, ◌++◌,
}
use agentverse.Base.Map.{Map, get, insert}
use agentverse.Guardrails.Patterns.{GuardrailError, rate_limited}

pub record RateLimiter : Type 0 where
  pub limits : Map String (List ℕ)
  pub default_max_requests : ℕ
  pub default_window_seconds : ℕ

abbrev pub new : ℕ → ℕ → RateLimiter
new default_max_requests default_window_seconds = record {
  limits = [];
  default_max_requests = default_max_requests;
  default_window_seconds = default_window_seconds;
}

unfoldable pub window : RateLimiter → ℕ
window r = r.default_window_seconds * 1000000000

-- `now.duration_since(*t) < window`
unfoldable pub is_recent : RateLimiter → ℕ → ℕ → Bool
unfolding window
is_recent r now t = ltb (now - t) (window r)

or_empty : Option (List ℕ) → List ℕ
or_empty none = []
or_empty (some ts) = ts

-- the requests of a user, none for a user that has no entry yet
unfoldable pub requests_of : String → RateLimiter → List ℕ
unfolding or_empty
requests_of user_id r = or_empty (get user_id r.limits)

module _ (show : ℕ → String) where
  limited : String → RateLimiter → GuardrailError
  limited user_id r = rate_limited (
      "User "
      <> (user_id
          <> (" exceeded rate limit: "
              <> (show r.default_max_requests
                  <> (" requests per " <> (show r.default_window_seconds <> "s"))))))

  decide : String → ℕ → RateLimiter → List ℕ → Option GuardrailError × RateLimiter
  unfolding limited
  decide user_id now r kept =
      if leb r.default_max_requests (length kept)
      then (some (limited user_id r), record r { limits = insert user_id kept r.limits })
      else (none, record r { limits = insert user_id (kept ++ now ∷ []) r.limits })

  -- `none` is `Ok(())`
  unfoldable pub check : String → ℕ → RateLimiter → Option GuardrailError × RateLimiter
  unfolding decide is_recent requests_of
  check user_id now r = decide user_id now r (retain (is_recent r now) (requests_of user_id r))

  -- the admitted ones of a sequence of checks
  unfoldable pub admitted : List (String × ℕ) → RateLimiter → List (String × ℕ)
  unfolding check
  admitted [] r = []
  admitted ((user_id, now) ∷ checks) r = elim (check user_id now r).0 [
    | none ↦ (user_id, now) ∷ admitted checks (check user_id now r).1
    | some e ↦ admitted checks (check user_id now r).1
  ]
