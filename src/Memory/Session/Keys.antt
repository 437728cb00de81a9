-- ===== src/Memory/Session/Keys.antt =====
-- The primary key of the sessions, and the reference from a message to its session.
use agentverse.Base.{
  ℕ, Bool, false, not, ◌&&◌, ◌==◌, nat_eq, if◌then◌else◌, ◌≡◌, refl, inl, inr, Bool-cases, Option,
  none, some, List, [], ◌∷◌, ◌++◌, retain, any, arith,
}
use agentverse.Memory.Session.Sql.{SessionRow, MessageRow, find_session, update_rows, rows_of}
use agentverse.Memory.Session.Tables.{find-update_rows, find-append}

-- No identifier stands twice in the table of sessions.
abbrev pub IsUnique : List SessionRow → Type 0
IsUnique [] = Unit
IsUnique (r ∷ rs) = (find_session r.id rs ≡ none) × IsUnique rs

-- A session that does not exist has no messages.
abbrev pub IsLinked : List SessionRow → List MessageRow → Type 0
IsLinked rs ms = (j : ℕ) → find_session j rs ≡ none → rows_of j ms ≡ []

-- whether a row is among the deleted ones, by what is found under its identifier
abbrev pub is_gone : (SessionRow → Bool) → Option SessionRow → Bool
is_gone p none = false
is_gone p (some r) = p r

abbrev pub kept : (SessionRow → Bool) → Option SessionRow → Option SessionRow
kept p none = none
kept p (some r) = if p r then none else some r

no_row-retain :
    (j : ℕ) (p : SessionRow → Bool) (rs : List SessionRow)
    → find_session j rs ≡ none
    → any (λ r. r.id == j) (retain p rs) ≡ false
unfolding find_session
no_row-retain j p [] e = refl
no_row-retain j p (r ∷ rs) e = ground (arith, no_row-retain j p rs)

pub any-retain :
    (j : ℕ) (p : SessionRow → Bool) (rs : List SessionRow)
    → IsUnique rs
    → any (λ r. r.id == j) (retain p rs) ≡ is_gone p (find_session j rs)
unfolding find_session
any-retain j p [] u = refl
any-retain j p (r ∷ rs) u = ground (arith, any-retain j p rs u.1, no_row-retain j p rs, u.0)

find-retain-none :
    (j : ℕ) (p : SessionRow → Bool) (rs : List SessionRow)
    → find_session j rs ≡ none
    → find_session j (retain p rs) ≡ none
unfolding find_session
find-retain-none j p [] e = refl
find-retain-none j p (r ∷ rs) e = ground (arith, find-retain-none j p rs)

pub find-retain :
    (j : ℕ) (p : SessionRow → Bool) (rs : List SessionRow)
    → IsUnique rs
    → find_session j (retain (λ r. not (p r)) rs) ≡ kept p (find_session j rs)
unfolding find_session
find-retain j p [] u = refl
find-retain j p (r ∷ rs) u =
    ground (arith, find-retain j p rs u.1, find-retain-none j (λ x. not (p x)) rs, u.0)

pub rows_of-retain :
    (j : ℕ) (gone : ℕ → Bool) (ms : List MessageRow)
    → rows_of j (retain (λ m. not (gone m.session_id)) ms) ≡ (if gone j then [] else rows_of j ms)
rows_of-retain j gone [] = ground arith
rows_of-retain j gone (m ∷ ms) = ground (arith, rows_of-retain j gone ms)

pub update_rows-IsUnique :
    (id : ℕ) (f : SessionRow → SessionRow) (rs : List SessionRow)
    → ((r : SessionRow) → (f r).id ≡ r.id)
    → IsUnique rs
    → IsUnique (update_rows id f rs)
unfolding update_rows
update_rows-IsUnique id f [] keeps u = tt
update_rows-IsUnique id f (r ∷ rs) keeps u = (
  ground (arith, find-update_rows r.id id f rs keeps, keeps r, u.0),
  update_rows-IsUnique id f rs keeps u.1,
)

pub append-IsUnique :
    (rs : List SessionRow) (row : SessionRow)
    → find_session row.id rs ≡ none
    → IsUnique rs
    → IsUnique (rs ++ row ∷ [])
unfolding find_session
append-IsUnique [] row e u = (refl, tt)
append-IsUnique (r ∷ rs) row e u = (
  ground (arith, find-append r.id rs row, u.0, e),
  append-IsUnique rs row (ground (arith, e)) u.1,
)

pub retain-IsUnique :
    (p : SessionRow → Bool) (rs : List SessionRow) → IsUnique rs → IsUnique (retain p rs)
retain-IsUnique p [] u = tt
retain-IsUnique p (r ∷ rs) u = elim (Bool-cases (p r)) [
  | inl e ↦ rw e (find-retain-none r.id p rs u.0, retain-IsUnique p rs u.1)
  | inr e ↦ rw e (retain-IsUnique p rs u.1)
]

pub rows_of-pruned :
    (j id : ℕ) (p : MessageRow → Bool) (ms : List MessageRow)
    → rows_of j (retain (λ m. not (m.session_id == id && p m)) ms)
      ≡ (if id == j then retain (λ m. not (p m)) (rows_of j ms) else rows_of j ms)
rows_of-pruned j id p [] = ground arith
rows_of-pruned j id p (m ∷ ms) = ground (arith, rows_of-pruned j id p ms)

pub find-id :
    (j : ℕ) (rs : List SessionRow) (r : SessionRow) → find_session j rs ≡ some r → r.id ≡ j
unfolding find_session
find-id j [] r e = ground arith
find-id j (x ∷ xs) r e = ground (arith, find-id j xs r)
