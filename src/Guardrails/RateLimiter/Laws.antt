-- ===== src/Guardrails/RateLimiter/Laws.antt =====
-- How many requests the limiter admits.
use agentverse.Base.{
  ℕ, suc, ap, ◌+◌, ◌*◌, ◌-◌, ◌≤◌, ◌<◌, String, false, ltb, leb, ◌==◌, ◌&&◌, string_eq,
  if◌then◌else◌, ◌≡◌, ◌↔◌, refl, length, retain, none, some, List, [], ◌∷◌, ◌++◌, length-append,
  arith, inl, inr, Option-cases, Bool-cases,
}
use agentverse.Base.Map.{get, get-insert}
use agentverse.Guardrails.Patterns.{GuardrailError}
use agentverse.Guardrails.RateLimiter.{
  RateLimiter, new, window, is_recent, requests_of, limited, decide, check, admitted,
}

-- how many of the times are in the window that ends at `now`
abbrev pub recent : ℕ → ℕ → List ℕ → ℕ
recent w now [] = 0
recent w now (t ∷ ts) = if ltb (now - t) w then suc (recent w now ts) else recent w now ts

-- how many admissions of a user are in the window that ends at `now`
abbrev pub recent_admissions : ℕ → String → ℕ → List (String × ℕ) → ℕ
recent_admissions w user_id now [] = 0
recent_admissions w user_id now ((u, t) ∷ log) =
    if u == user_id && ltb (now - t) w
    then suc (recent_admissions w user_id now log)
    else recent_admissions w user_id now log

-- the clock does not go back, and stands at `last` or before it in the end
abbrev pub Monotone : ℕ → List (String × ℕ) → ℕ → Type 0
Monotone start [] last = start ≤ last
Monotone start ((u, t) ∷ checks) last = (start ≤ t) × Monotone t checks last

Monotone-bound :
    (start : ℕ) (checks : List (String × ℕ)) (last : ℕ) → Monotone start checks last → start ≤ last
Monotone-bound start [] last h = h
Monotone-bound start ((u, t) ∷ checks) last h = omega (arith, h.0, Monotone-bound t checks last h.1)

recent-length : (w now : ℕ) (ts : List ℕ) → recent w now ts ≤ length ts
recent-length w now [] = omega arith
recent-length w now (t ∷ ts) = ground (arith, recent-length w now ts)

recent-append :
    (w now t : ℕ) (ts : List ℕ)
    → recent w now (ts ++ t ∷ []) ≡ recent w now ts + (if ltb (now - t) w then 1 else 0)
recent-append w now t [] = ground arith
recent-append w now t (s ∷ ts) = ground (arith, recent-append w now t ts)

-- what is dropped at one time is not recent at a later one
recent-retain :
    (r : RateLimiter) (now later : ℕ) (ts : List ℕ)
    → now ≤ later
    → recent (window r) later (retain (is_recent r now) ts) ≡ recent (window r) later ts
unfolding is_recent
recent-retain r now later [] h = refl
recent-retain r now later (t ∷ ts) h = ground (arith, h, recent-retain r now later ts h)

module _ (show : ℕ → String) (last : ℕ) (user_id : String) where
  -- what the check of one user makes of the requests of another, and of its own
  requests_of-check :
      (v : String) (now : ℕ) (r : RateLimiter)
      → requests_of user_id (check show v now r).1 ≡ (
          if v == user_id
          then (if leb r.default_max_requests (length (retain (is_recent r now) (requests_of v r)))
              then retain (is_recent r now) (requests_of v r)
              else retain (is_recent r now) (requests_of v r) ++ now ∷ [])
          else requests_of user_id r)
  unfolding check decide requests_of
  requests_of-check v now r = ground (
    arith,
    get-insert user_id v (retain (is_recent r now) (requests_of v r)) r.limits,
    get-insert user_id v (retain (is_recent r now) (requests_of v r) ++ now ∷ []) r.limits,
  )

  check-limits :
      (v : String) (now : ℕ) (r : RateLimiter)
      → ((check show v now r).1.default_max_requests ≡ r.default_max_requests)
        × ((check show v now r).1.default_window_seconds ≡ r.default_window_seconds)
  unfolding check decide
  check-limits v now r = (ground arith, ground arith)

  check-admits :
      (v : String) (now : ℕ) (r : RateLimiter)
      → ((check show v now r).0 ≡ none)
        ↔ (leb r.default_max_requests (length (retain (is_recent r now) (requests_of v r))) ≡ false)
  unfolding check decide
  check-admits v now r = (λ h. ground arith, λ h. ground arith)

  check-window : (v : String) (now : ℕ) (r : RateLimiter) → window (check show v now r).1 ≡ window r
  unfolding window
  check-window v now r = ap (λ n. n * 1000000000) (check-limits v now r).1

  -- a refused check leaves what is recent, of every user
  recent-refused :
      (v : String) (now : ℕ) (r : RateLimiter) (e : GuardrailError)
      → now ≤ last
      → (check show v now r).0 ≡ some e
      → recent (window r) last (requests_of user_id (check show v now r).1)
        ≡ recent (window r) last (requests_of user_id r)
  recent-refused v now r e h out =
      let kept : List ℕ = retain (is_recent r now) (requests_of v r) in
      elim (Bool-cases (leb r.default_max_requests (length kept))) [
        | inl full ↦ ground (
          arith,
          h,
          full,
          requests_of-check v now r,
          recent-retain r now last (requests_of v r) h,
        )
        | inr free ↦ cc (rw ((check-admits v now r).1 free) at out)
      ]

  -- an admitted one adds one, where there is room
  recent-admitted :
      (v : String) (now : ℕ) (r : RateLimiter)
      → now ≤ last
      → (check show v now r).0 ≡ none
      → recent (window r) last (requests_of user_id r) ≤ r.default_max_requests
      → (recent (window r) last (requests_of user_id (check show v now r).1)
          ≡ recent (window r) last (requests_of user_id r)
            + (if v == user_id && ltb (last - now) (window r) then 1 else 0))
        × (recent (window r) last (requests_of user_id (check show v now r).1)
            ≤ r.default_max_requests)
  recent-admitted v now r h out room =
      let kept : List ℕ = retain (is_recent r now) (requests_of v r) in
      let free = (check-admits v now r).0 out in
      let sum = recent-append (window r) last now kept in
      let all = recent-length (window r) last (kept ++ now ∷ []) in
      (
        ground (
          arith,
          h,
          free,
          requests_of-check v now r,
          sum,
          recent-retain r now last (requests_of v r) h,
        ),
        ground
            (arith, h, free, requests_of-check v now r, all, length-append kept (now ∷ []), room),
      )

  admitted-bounded :
      (checks : List (String × ℕ)) (start : ℕ) (r : RateLimiter)
      → Monotone start checks last
      → recent (window r) last (requests_of user_id r) ≤ r.default_max_requests
      → recent (window r) last (requests_of user_id r)
          + recent_admissions (window r) user_id last (admitted show checks r)
        ≤ r.default_max_requests
  unfolding admitted
  admitted-bounded [] start r m room = omega (arith, room)
  admitted-bounded ((v, now) ∷ checks) start r m room =
      let h = Monotone-bound now checks last m.1 in
      let r' : RateLimiter = (check show v now r).1 in
      elim (Option-cases (check show v now r).0) [
        | inl out ↦
            let x = recent-admitted v now r h out room in
            let ih =
              admitted-bounded checks now r' m.1
                (rw (check-window v now r, (check-limits v now r).0) x.1) in
            rw (out, admitted)
              (ground (arith, x.0, rw (check-window v now r, (check-limits v now r).0) at ih))
        | inr (e, out) ↦
            let x = recent-refused v now r e h out in
            let ih =
              admitted-bounded checks now r' m.1
                (rw (check-window v now r, (check-limits v now r).0, x) room) in
            rw (out, admitted) (rw (check-window v now r, (check-limits v now r).0, x) at ih)
      ]

-- Over any run of checks on a monotone clock, and at any time behind them, a user has been admitted at
-- most the maximum number of times in the window that ends there.
pub admitted-new :
    (show : ℕ → String) (max seconds : ℕ) (checks : List (String × ℕ)) (user_id : String)
    (start last : ℕ)
    → Monotone start checks last
    → recent_admissions (seconds * 1000000000) user_id last (admitted show checks (new max seconds))
      ≤ max
unfolding window requests_of get
admitted-new show max seconds checks user_id start last m =
    omega (arith, admitted-bounded show last user_id checks start (new max seconds) m (omega arith))

answer-same :
    (show : ℕ → String) (u : String) (now : ℕ) (r s : RateLimiter)
    → requests_of u s ≡ requests_of u r
    → s.default_max_requests ≡ r.default_max_requests
    → s.default_window_seconds ≡ r.default_window_seconds
    → (check show u now s).0 ≡ (check show u now r).0
unfolding check decide limited is_recent window
answer-same show u now r s p q w = ground (arith, p, q, w)

-- The checks of one user never change the answer that another gets.
check-independent :
    (show : ℕ → String) (u v : String) (now later : ℕ) (r : RateLimiter)
    → v == u ≡ false
    → (check show u later (check show v now r).1).0 ≡ (check show u later r).0
check-independent show u v now later r other =
    let limits = check-limits show now u v now r in
    answer-same show u later r (check show v now r).1
      (ground (arith, other, requests_of-check show now u v now r)) limits.0 limits.1

-- what is kept at a time is what is recent then
length-kept :
    (r : RateLimiter) (now : ℕ) (ts : List ℕ)
    → length (retain (is_recent r now) ts) ≡ recent (window r) now ts
unfolding is_recent
length-kept r now [] = refl
length-kept r now (t ∷ ts) = ground (arith, length-kept r now ts)

-- A user is refused exactly when as many requests as the maximum are in the window: one whose requests
-- have left it is admitted again.
check_iff :
    (show : ℕ → String) (u : String) (now : ℕ) (r : RateLimiter)
    → ((check show u now r).0 ≡ none)
      ↔ (recent (window r) now (requests_of u r) < r.default_max_requests)
check_iff show u now r =
    let kept = length-kept r now (requests_of u r) in
    let admits = check-admits show now u u now r in
    (λ h. ground (arith, kept, admits.0 h), λ h. admits.1 (ground (arith, kept, h)))
