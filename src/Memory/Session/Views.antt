-- ===== src/Memory/Session/Views.antt =====
-- How the view of a session changes with the tables.
use agentverse.Base.{
  ℕ, ◌+◌, Bool, true, not, ◌&&◌, ◌==◌, string_eq, nat_eq, if◌then◌else◌, ◌≡◌, Option, none, some,
  List, [], ◌∷◌, ◌++◌, retain, any, arith,
}
use agentverse.Core.Message.{Message}
use agentverse.Memory.Session.Sql.{
  SessionRow, MessageRow, Db, find_session, update_rows, rows_of, by_sequence, max_sequence,
  order_by,
}
use agentverse.Memory.Session.Store.{Codec, message_row}
use agentverse.Memory.Session.Tables.{
  find-update_rows, find-append, rows_of-append, by_sequence-retain, by_sequence-last,
  max_sequence-order, max_sequence-append,
}
use agentverse.Memory.Session.Keys.{
  IsUnique, IsLinked, any-retain, find-retain, rows_of-retain, rows_of-pruned,
}
use agentverse.Memory.Session.Runs.{Tables}
use agentverse.Memory.Session.Contract.{
  View, view_of, view, on_view, change_row, added, next_number,
}

-- the view that the rows give
unfoldable pub view_at : ℕ → List SessionRow → List MessageRow → Option View
view_at j rs ms = view_of (by_sequence (rows_of j ms)) (find_session j rs)

module _ (j : ℕ) (t : Db) (rs : List SessionRow) (ms : List MessageRow) (at : Tables t rs ms) where
  pub view-Tables : view j t ≡ view_at j rs ms
  unfolding view_at
  view-Tables = cc (at.0, at.1)

-- an update changes the row of one session
pub update-view :
    (j id : ℕ) (f : SessionRow → SessionRow) (rs : List SessionRow) (ms : List MessageRow)
    → ((r : SessionRow) → (f r).id ≡ r.id)
    → view_at j (update_rows id f rs) ms ≡ on_view (id == j) (change_row f) (view_at j rs ms)
unfolding view_at on_view
update-view j id f rs ms keeps = ground (arith, find-update_rows j id f rs keeps)

pub delete-view :
    (j : ℕ) (p : SessionRow → Bool) (rs : List SessionRow) (ms : List MessageRow)
    → IsUnique rs
    → view_at j
        (retain (λ r. not (p r)) rs)
        (retain (λ m. not (any (λ r. r.id == m.session_id) (retain p rs))) ms)
      ≡ on_view true (λ v. if p v.row then none else some v) (view_at j rs ms)
unfolding view_at on_view
delete-view j p rs ms u = ground (
  arith,
  find-retain j p rs u,
  any-retain j p rs u,
  rows_of-retain j (λ k. any (λ r. r.id == k) (retain p rs)) ms,
)

pub insert-view :
    (j : ℕ) (row : SessionRow) (rs : List SessionRow) (ms : List MessageRow)
    → IsLinked rs ms
    → find_session row.id rs ≡ none
    → view_at j (rs ++ row ∷ []) ms ≡ added (row.id == j) row (view_at j rs ms)
unfolding view_at added order_by
insert-view j row rs ms linked e = ground (arith, find-append j rs row e, linked j)

append-view :
    (j : ℕ) (row : MessageRow) (rs : List SessionRow) (ms : List MessageRow)
    → row.sequence_num ≡ max_sequence (rows_of row.session_id ms) + 1
    → view_at j rs (ms ++ row ∷ [])
      ≡ on_view
          (row.session_id == j)
          (λ v. some (record v { log = v.log ++ row ∷ [] }))
          (view_at j rs ms)
unfolding view_at on_view
append-view j row rs ms e =
    ground (arith, rows_of-append j ms row, by_sequence-last (rows_of j ms) row, e)

pub cleanup-view :
    (j id : ℕ) (p : MessageRow → Bool) (rs : List SessionRow) (ms : List MessageRow)
    → view_at j rs (retain (λ m. not (m.session_id == id && p m)) ms)
      ≡ on_view
          (id == j)
          (λ v. some (record v { log = retain (λ m. not (p m)) v.log }))
          (view_at j rs ms)
unfolding view_at on_view
cleanup-view j id p rs ms =
    ground (arith, rows_of-pruned j id p ms, by_sequence-retain (λ m. not (p m)) (rows_of j ms))

pub missing-view :
    (j id : ℕ) (f : View → Option View) (rs : List SessionRow) (ms : List MessageRow)
    → find_session id rs ≡ none
    → on_view (id == j) f (view_at j rs ms) ≡ view_at j rs ms
unfolding view_at on_view
missing-view j id f rs ms e = ground (arith, e)

module _ (codec : Codec) (now j id : ℕ) (rs : List SessionRow) (ms : List MessageRow) where
  pub post-view :
      (m : Message)
      → view_at j rs (ms ++ message_row codec id m (max_sequence (rows_of id ms) + 1) now ∷ [])
        ≡ on_view
            (id == j)
            (λ v.
              some (record v { log = v.log ++ message_row codec id m (next_number v) now ∷ [] }))
            (view_at j rs ms)
  unfolding view_at on_view message_row
  post-view m = ground (
    arith,
    rows_of-append j ms (message_row codec id m (max_sequence (rows_of id ms) + 1) now),
    by_sequence-last (rows_of j ms) (message_row codec id m (max_sequence (rows_of id ms) + 1) now),
    max_sequence-order (rows_of j ms),
  )

  pub turn-view :
      (u a : Message)
      → let n = max_sequence (rows_of id ms) + 1 in
        view_at j rs
          ((ms ++ message_row codec id u n now ∷ []) ++ message_row codec id a (n + 1) now ∷ [])
        ≡ on_view
            (id == j)
            (λ v. some (record v {
              log =
                  (v.log ++ message_row codec id u (next_number v) now ∷ [])
                  ++ message_row codec id a (next_number v + 1) now ∷ [];
            }))
            (view_at j rs ms)
  unfolding view_at on_view message_row
  turn-view u a =
      let n = max_sequence (rows_of id ms) + 1 in
      let first = message_row codec id u n now in
      let second = message_row codec id a (n + 1) now in
      ground (
        arith,
        rows_of-append j ms first,
        rows_of-append j (ms ++ first ∷ []) second,
        by_sequence-last (rows_of j ms) first,
        by_sequence-last (rows_of j ms ++ first ∷ []) second,
        max_sequence-append (rows_of j ms) first,
        max_sequence-order (rows_of j ms),
      )
