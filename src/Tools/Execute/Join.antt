-- ===== src/Tools/Execute/Join.antt =====
-- What the tasks return, whatever the order in which they end.
use agentverse.Base.{
  ℕ, suc, ◌≤◌, String, Bool, true, false, ◌==◌, string_eq, if◌then◌else◌, ◌≡◌, refl, ◌∙◌, Option,
  none, some, List, [], ◌∷◌, arith, Reordered, nil, cons, swap, trans,
}
use agentverse.Tools.Execute.{Joined, returned, join_error}

abbrev pub is_join_error : Joined → Bool
is_join_error (returned r) = false
is_join_error join_error = true

abbrev pub has_id : String → Joined → Bool
has_id id (returned r) = r.id == id
has_id id join_error = false

abbrev pub count : (Joined → Bool) → List Joined → ℕ
count p [] = 0
count p (j ∷ js) = if p j then suc (count p js) else count p js

abbrev pub find : (Joined → Bool) → List Joined → Option Joined
find p [] = none
find p (j ∷ js) = if p j then some j else find p js

-- A permutation keeps how many tasks pass a test.
pub count-Reordered :
    (p : Joined → Bool) (js ks : List Joined) → Reordered js ks → count p js ≡ count p ks
count-Reordered p js ks nil = refl
count-Reordered p js ks (cons j {xs} {ys} d) = ground (arith, count-Reordered p xs ys d)
count-Reordered p js ks (swap i j xs) = ground arith
count-Reordered p js ks (trans {ys = ys} d e) =
    count-Reordered p js ys d ∙ count-Reordered p ys ks e

pub find-absent : (p : Joined → Bool) (js : List Joined) → count p js ≡ 0 → find p js ≡ none
find-absent p [] h = refl
find-absent p (j ∷ js) h = ground (arith, find-absent p js)

-- A permutation keeps which task passes a test that at most one task passes.
pub find-Reordered :
    (p : Joined → Bool) (js ks : List Joined)
    → Reordered js ks
    → count p js ≤ 1
    → find p js ≡ find p ks
find-Reordered p js ks nil h = refl
find-Reordered p js ks (cons j {xs} {ys} d) h = ground (arith, find-Reordered p xs ys d)
find-Reordered p js ks (swap i j xs) h = ground arith
find-Reordered p js ks (trans {ys = ys} d e) h =
    find-Reordered p js ys d h
    ∙ find-Reordered p ys ks e (omega (arith, h, count-Reordered p js ys d))
