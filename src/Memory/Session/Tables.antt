-- ===== src/Memory/Session/Tables.antt =====
-- The statements on the tables: what a lookup finds behind an update, an insertion or a deletion, and
-- how rows stand in the order of their numbers.
use agentverse.Base.{
  ℕ, ◌≤◌, ◌<◌, Bool, false, leb, ◌==◌, string_eq, nat_eq, if◌then◌else◌, ◌≡◌, refl, Option, none,
  some, List, [], ◌∷◌, ◌++◌, retain, any, All, Bool-cases, inl, inr, arith,
}
use agentverse.Memory.Session.Sql.{
  SessionRow, MessageRow, find_session, update_rows, affected, rows_of, order_by, insert_by,
  by_sequence, max_sequence,
}

abbrev pub update_found : (SessionRow → SessionRow) → Option SessionRow → Option SessionRow
update_found f none = none
update_found f (some r) = some (f r)

pub find-update_rows :
    (j id : ℕ) (f : SessionRow → SessionRow) (rs : List SessionRow)
    → ((r : SessionRow) → (f r).id ≡ r.id)
    → find_session j (update_rows id f rs)
      ≡ (if id == j then update_found f (find_session j rs) else find_session j rs)
unfolding find_session update_rows
find-update_rows j id f [] keeps = ground arith
find-update_rows j id f (r ∷ rs) keeps = ground (arith, find-update_rows j id f rs keeps, keeps r)

affected-missing : (id : ℕ) (rs : List SessionRow) → find_session id rs ≡ none → affected id rs ≡ 0
unfolding find_session affected
affected-missing id [] e = refl
affected-missing id (r ∷ rs) e = ground (arith, affected-missing id rs)

affected-found :
    (id : ℕ) (rs : List SessionRow) (s : SessionRow)
    → find_session id rs ≡ some s
    → affected id rs == 0 ≡ false
unfolding find_session affected
affected-found id [] s e = ground arith
affected-found id (r ∷ rs) s e = ground (arith, affected-found id rs s)

update_rows-missing :
    (id : ℕ) (f : SessionRow → SessionRow) (rs : List SessionRow)
    → find_session id rs ≡ none
    → update_rows id f rs ≡ rs
unfolding find_session update_rows
update_rows-missing id f [] e = refl
update_rows-missing id f (r ∷ rs) e = ground (arith, update_rows-missing id f rs)

pub find-append :
    (j : ℕ) (rs : List SessionRow) (row : SessionRow)
    → find_session row.id rs ≡ none
    → find_session j (rs ++ row ∷ []) ≡ (if row.id == j then some row else find_session j rs)
unfolding find_session
find-append j [] row e = refl
find-append j (r ∷ rs) row e = ground (arith, find-append j rs row)

retain-append {ℓ} :
    {A : Type ℓ} (p : A → Bool) (xs ys : List A) → retain p (xs ++ ys) ≡ retain p xs ++ retain p ys
retain-append p [] ys = refl
retain-append p (x ∷ xs) ys = ground (arith, retain-append p xs ys)

abbrev IsUpTo : ℕ → List MessageRow → Type 0
IsUpTo n = All (λ m. m.sequence_num ≤ n)

IsUpTo-weaken : (n k : ℕ) (ms : List MessageRow) → n ≤ k → IsUpTo n ms → IsUpTo k ms
IsUpTo-weaken n k [] le h = tt
IsUpTo-weaken n k (m ∷ ms) le h = (omega (arith, h.0), IsUpTo-weaken n k ms le h.1)

IsUpTo-max_sequence : (ms : List MessageRow) → IsUpTo (max_sequence ms) ms
unfolding max_sequence
IsUpTo-max_sequence [] = tt
IsUpTo-max_sequence (m ∷ ms) =
    (ground arith, IsUpTo-weaken _ _ ms (ground arith) (IsUpTo-max_sequence ms))

abbrev stands_before : MessageRow → MessageRow → Bool
stands_before a b = leb a.sequence_num b.sequence_num

insert_by-append :
    (m last : MessageRow) (ms : List MessageRow)
    → m.sequence_num ≤ last.sequence_num
    → insert_by stands_before m (ms ++ last ∷ []) ≡ insert_by stands_before m ms ++ last ∷ []
unfolding insert_by
insert_by-append m last [] le = ground arith
insert_by-append m last (x ∷ xs) le = ground (arith, insert_by-append m last xs)

-- a row whose number is no smaller than any other stands last
by_sequence-append :
    (ms : List MessageRow) (last : MessageRow)
    → IsUpTo last.sequence_num ms
    → by_sequence (ms ++ last ∷ []) ≡ by_sequence ms ++ last ∷ []
unfolding order_by insert_by
by_sequence-append [] last h = refl
by_sequence-append (m ∷ ms) last h =
    rw (by_sequence-append ms last h.1, insert_by-append m last (by_sequence ms) h.0)

pub max_sequence-append :
    (ms : List MessageRow) (last : MessageRow)
    → max_sequence ms ≤ last.sequence_num
    → max_sequence (ms ++ last ∷ []) ≡ last.sequence_num
unfolding max_sequence
max_sequence-append [] last le = ground arith
max_sequence-append (m ∷ ms) last le = ground (arith, max_sequence-append ms last)

pub rows_of-append :
    (id : ℕ) (ms : List MessageRow) (last : MessageRow)
    → rows_of id (ms ++ last ∷ [])
      ≡ (if last.session_id == id then rows_of id ms ++ last ∷ [] else rows_of id ms)
rows_of-append id [] last = ground arith
rows_of-append id (m ∷ ms) last = ground (arith, rows_of-append id ms last)

-- the numbers in use are no larger than the largest
pub fresh_sequence :
    (ms : List MessageRow) (n : ℕ) → max_sequence ms < n → any (λ m. m.sequence_num == n) ms ≡ false
unfolding max_sequence
fresh_sequence [] n lt = refl
fresh_sequence (m ∷ ms) n lt = ground (arith, fresh_sequence ms n)

abbrev IsFrom : ℕ → List MessageRow → Type 0
IsFrom n = All (λ m. n ≤ m.sequence_num)

IsFrom-weaken : (n k : ℕ) (ms : List MessageRow) → k ≤ n → IsFrom n ms → IsFrom k ms
IsFrom-weaken n k [] le h = tt
IsFrom-weaken n k (m ∷ ms) le h = (omega (arith, h.0), IsFrom-weaken n k ms le h.1)

IsFrom-retain :
    (p : MessageRow → Bool) (n : ℕ) (ms : List MessageRow) → IsFrom n ms → IsFrom n (retain p ms)
IsFrom-retain p n [] h = tt
IsFrom-retain p n (m ∷ ms) h = elim (Bool-cases (p m)) [
  | inl e ↦ rw e (h.0, IsFrom-retain p n ms h.1)
  | inr e ↦ rw e (IsFrom-retain p n ms h.1)
]

abbrev IsSorted : List MessageRow → Type 0
IsSorted [] = Unit
IsSorted (m ∷ ms) = IsFrom m.sequence_num ms × IsSorted ms

insert_by-front :
    (m : MessageRow) (ms : List MessageRow)
    → IsFrom m.sequence_num ms
    → insert_by stands_before m ms ≡ m ∷ ms
unfolding insert_by
insert_by-front m [] h = refl
insert_by-front m (x ∷ xs) h = ground (arith, h.0)

insert_by-IsFrom :
    (n : ℕ) (m : MessageRow) (ms : List MessageRow)
    → n ≤ m.sequence_num
    → IsFrom n ms
    → IsFrom n (insert_by stands_before m ms)
unfolding insert_by
insert_by-IsFrom n m [] le h = (le, tt)
insert_by-IsFrom n m (x ∷ xs) le h = elim (Bool-cases (stands_before m x)) [
  | inl e ↦ rw e (le, h)
  | inr e ↦ rw e (h.0, insert_by-IsFrom n m xs le h.1)
]

insert_by-IsSorted :
    (m : MessageRow) (ms : List MessageRow) → IsSorted ms → IsSorted (insert_by stands_before m ms)
unfolding insert_by
insert_by-IsSorted m [] h = (tt, tt)
insert_by-IsSorted m (x ∷ xs) h = elim (Bool-cases (stands_before m x)) [
  | inl e ↦ rw e ((ground arith, IsFrom-weaken _ _ xs (ground arith) h.0), h)
  | inr e ↦ rw e (insert_by-IsFrom _ m xs (ground arith) h.0, insert_by-IsSorted m xs h.1)
]

by_sequence-IsSorted : (ms : List MessageRow) → IsSorted (by_sequence ms)
unfolding order_by
by_sequence-IsSorted [] = tt
by_sequence-IsSorted (m ∷ ms) = insert_by-IsSorted m (by_sequence ms) (by_sequence-IsSorted ms)

insert_by-retain :
    (p : MessageRow → Bool) (m : MessageRow) (ms : List MessageRow)
    → IsSorted ms
    → retain p (insert_by stands_before m ms)
      ≡ (if p m then insert_by stands_before m (retain p ms) else retain p ms)
unfolding insert_by
insert_by-retain p m [] h = ground arith
insert_by-retain p m (x ∷ xs) h = elim (Bool-cases (stands_before m x)) [
  | inl e ↦ ground (
    arith,
    insert_by-front m (retain p xs)
        (IsFrom-retain p _ xs (IsFrom-weaken _ _ xs (ground arith) h.0)),
  )
  | inr e ↦ ground (arith, insert_by-retain p m xs h.1)
]

-- the order is the same with rows left out
pub by_sequence-retain :
    (p : MessageRow → Bool) (ms : List MessageRow)
    → by_sequence (retain p ms) ≡ retain p (by_sequence ms)
unfolding order_by
by_sequence-retain p [] = refl
by_sequence-retain p (m ∷ ms) =
    rw (insert_by-retain p m (by_sequence ms) (by_sequence-IsSorted ms))
      (ground (arith, by_sequence-retain p ms))

max_sequence-insert :
    (m : MessageRow) (ms : List MessageRow)
    → max_sequence (insert_by stands_before m ms) ≡ max_sequence (m ∷ ms)
unfolding max_sequence insert_by
max_sequence-insert m [] = ground arith
max_sequence-insert m (x ∷ xs) = ground (arith, max_sequence-insert m xs)

pub max_sequence-order : (ms : List MessageRow) → max_sequence (by_sequence ms) ≡ max_sequence ms
unfolding max_sequence order_by
max_sequence-order [] = refl
max_sequence-order (m ∷ ms) =
    ground (arith, max_sequence-insert m (by_sequence ms), max_sequence-order ms)

-- the row with the next number stands last
pub by_sequence-last :
    (ms : List MessageRow) (last : MessageRow)
    → max_sequence ms ≤ last.sequence_num
    → by_sequence (ms ++ last ∷ []) ≡ by_sequence ms ++ last ∷ []
by_sequence-last ms last le =
    by_sequence-append ms last (IsUpTo-weaken _ _ ms le (IsUpTo-max_sequence ms))
