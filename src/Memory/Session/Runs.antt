-- ===== src/Memory/Session/Runs.antt =====
-- The tables behind each operation of the store, on a database that answers every statement.
use agentverse.Base.{
  ℕ, zero, suc, ◌+◌, ◌≤◌, ◌<◌, Bool, not, ◌&&◌, ltb, leb, min, ◌==◌, string_eq, nat_eq,
  if◌then◌else◌, ◌≡◌, refl, ◌∙◌, inl, inr, none, some, List, [], ◌∷◌, ◌++◌, retain, any, ok,
  Result-cases, arith,
}
use agentverse.Core.Message.{Message}
use agentverse.Memory.Session.Sql.{
  SessionRow, MessageRow, Db, Engine, Query, return, fail, ◌>>=◌, and_run, execute, in_transaction,
  find_session, update_rows, rows_of, max_sequence, insert_session, insert_message, delete_sessions,
  delete_messages,
}
use agentverse.Memory.Session.Store.{
  Codec, session_of_row, message_row, get, update, append_message, append_turn,
  select_next_sequence,
}
use agentverse.Memory.Session.Maintenance.{cleanup_expired_messages, get_watermark}
use agentverse.Memory.Session.Tables.{fresh_sequence, max_sequence-append, rows_of-append}

-- No statement fails.
abbrev pub Works : Engine → Type 0
Works engine = (n : ℕ) → engine.fault n ≡ none

-- What stands in the tables.
abbrev pub Tables : Db → List SessionRow → List MessageRow → Type 0
Tables db sessions messages = (db.sessions ≡ sessions) × (db.messages ≡ messages)

module _ {A B : Type 0} (q : Query A) (next : A → Query B) (db : Db) where
  -- a query that returns is followed by the next
  bind-ok : (a : A) (t : Db) → q db ≡ (ok a, t) → (q >>= next) db ≡ next a t
  unfolding ◌>>=◌ and_run
  bind-ok a t e = rw e refl

-- a query that only returns a value keeps the tables
pub return-keeps :
    {A B : Type 0} (q : Query A) (b : B) (db : Db) → ((q >>= λ _. return b) db).1 ≡ (q db).1
unfolding ◌>>=◌ and_run return
return-keeps q b db = elim (Result-cases (q db).0) [
  | inl (a, e) ↦ ground (arith, e)
  | inr (x, e) ↦ ground (arith, e)
]

module _ (engine : Engine) (works : Works engine) where
  pub update-Tables :
      (id : ℕ) (f : SessionRow → SessionRow) (db : Db)
      → Tables (update engine id f db).1 (update_rows id f db.sessions) db.messages
  unfolding update execute ◌>>=◌ and_run return fail
  update-Tables id f db = ground (arith, works db.executed)

  -- a row of a session goes in where its identifier is new
  pub insert_session-Tables :
      (row : SessionRow) (db : Db)
      → find_session row.id db.sessions ≡ none
      → Tables (execute engine (insert_session row) db).1 (db.sessions ++ row ∷ []) db.messages
  unfolding execute insert_session
  insert_session-Tables row db e = ground (arith, works db.executed, e)

  pub delete_sessions-Tables :
      (p : SessionRow → Bool) (db : Db)
      → Tables
          (execute engine (delete_sessions p) db).1
          (retain (λ r. not (p r)) db.sessions)
          (retain (λ m. not (any (λ r. r.id == m.session_id) (retain p db.sessions))) db.messages)
  unfolding execute delete_sessions
  delete_sessions-Tables p db = ground (arith, works db.executed)

  pub append_turn-missing :
      (codec : Codec) (id : ℕ) (u a : Message) (now : ℕ) (db : Db)
      → find_session id db.sessions ≡ none
      → Tables (append_turn engine codec id u a now db).1 db.sessions db.messages
  unfolding append_turn get execute ◌>>=◌ and_run return fail
  append_turn-missing codec id u a now db e = ground (arith, works db.executed, e)

  -- a row of a message goes in where its session exists and its number is the next one
  insert_message-step :
      (row : MessageRow) (s : SessionRow) (db : Db)
      → find_session row.session_id db.sessions ≡ some s
      → max_sequence (rows_of row.session_id db.messages) < row.sequence_num
      → execute engine (insert_message row) db
        ≡ (ok tt, record db { messages = db.messages ++ row ∷ []; executed = suc db.executed })
  unfolding execute insert_message
  insert_message-step row s db e lt =
      rw
        (
          works db.executed,
          insert_message,
          e,
          fresh_sequence (rows_of row.session_id db.messages) row.sequence_num lt,
        )
        refl

  get-found :
      (id : ℕ) (s : SessionRow) (db : Db)
      → find_session id db.sessions ≡ some s
      → get engine id db ≡ (ok (some (session_of_row s)), record db { executed = suc db.executed })
  unfolding get execute ◌>>=◌ and_run return
  get-found id s db e = rw (works db.executed, find_session, e) refl

  get-missing :
      (id : ℕ) (db : Db)
      → find_session id db.sessions ≡ none
      → get engine id db ≡ (ok none, record db { executed = suc db.executed })
  unfolding get execute ◌>>=◌ and_run return
  get-missing id db e = rw (works db.executed, find_session, e) refl

  in_transaction-ok :
      {A : Type 0} (body : Query A) (a : A) (db t : Db)
      → body (record db { executed = suc db.executed }) ≡ (ok a, t)
      → in_transaction engine body db ≡ (ok a, record t { executed = suc t.executed })
  unfolding in_transaction execute ◌>>=◌ and_run return
  in_transaction-ok body a db t e = rw (works db.executed, e, works t.executed) refl

  next_sequence-ok :
      {B : Type 0} (id : ℕ) (next : ℕ → Query B) (db : Db)
      → (select_next_sequence engine id >>= next) db
        ≡ next
            (max_sequence (rows_of id db.messages) + 1)
            (record db { executed = suc db.executed })
  unfolding select_next_sequence execute ◌>>=◌ and_run
  next_sequence-ok id next db = rw (works db.executed) refl

  abbrev later : ℕ → Db → Db
  later zero db = db
  later (suc n) db = record db { executed = suc (later n db).executed }

  pub append_message-found :
      (codec : Codec) (id : ℕ) (m : Message) (now : ℕ) (s : SessionRow) (db : Db)
      → find_session id db.sessions ≡ some s
      → append_message engine codec id m now db ≡ (
        ok tt,
        record (later 5 db) {
          messages =
              db.messages
              ++ message_row codec id m (max_sequence (rows_of id db.messages) + 1) now ∷ [];
        },
      )
  unfolding append_message ◌>>=◌ message_row
  append_message-found codec id m now s db e =
      bind-ok (get engine id) _ db _ _ (get-found id s db e)
      ∙ in_transaction-ok _ tt (later 1 db) _ (
          next_sequence-ok id _ (later 2 db) ∙ insert_message-step _ s (later 3 db) e (omega arith))

  next_number-append :
      (id : ℕ) (row : MessageRow) (ms : List MessageRow)
      → row.session_id ≡ id
      → max_sequence (rows_of id ms) ≤ row.sequence_num
      → max_sequence (rows_of id (ms ++ row ∷ [])) ≡ row.sequence_num
  next_number-append id row ms e le =
      ground (arith, rows_of-append id ms row, max_sequence-append (rows_of id ms) row)

  pub append_turn-found :
      (codec : Codec) (id : ℕ) (u a : Message) (now : ℕ) (s : SessionRow) (db : Db)
      → find_session id db.sessions ≡ some s
      → let n = max_sequence (rows_of id db.messages) + 1 in
        append_turn engine codec id u a now db ≡ (
          ok tt,
          record (later 6 db) {
            messages =
                (db.messages ++ message_row codec id u n now ∷ [])
                ++ message_row codec id a (n + 1) now ∷ [];
          },
        )
  unfolding append_turn ◌>>=◌ message_row
  append_turn-found codec id u a now s db e =
      bind-ok (get engine id) _ db _ _ (get-found id s db e)
      ∙ in_transaction-ok _ tt (later 1 db) _ (
          next_sequence-ok id _ (later 2 db)
          ∙ bind-ok (execute engine (insert_message first)) _ (later 3 db) _ _
              (insert_message-step first s (later 3 db) e (omega arith))
          ∙ insert_message-step _ s _ e second)
    where
      rows : List MessageRow
      rows = rows_of id db.messages

      first : MessageRow
      first = message_row codec id u (max_sequence rows + 1) now

      second : max_sequence (rows_of id (db.messages ++ first ∷ [])) < max_sequence rows + 1 + 1
      second = omega (arith, next_number-append id first db.messages refl (omega arith))

  pub insert_session-taken :
      (row r : SessionRow) (db : Db)
      → find_session row.id db.sessions ≡ some r
      → Tables (execute engine (insert_session row) db).1 db.sessions db.messages
  unfolding execute insert_session
  insert_session-taken row r db e = ground (arith, works db.executed, e)

  pub append_message-missing :
      (codec : Codec) (id : ℕ) (m : Message) (now : ℕ) (db : Db)
      → find_session id db.sessions ≡ none
      → Tables (append_message engine codec id m now db).1 db.sessions db.messages
  unfolding append_message get execute ◌>>=◌ and_run return fail
  append_message-missing codec id m now db e = ground (arith, works db.executed, e)

  pub cleanup-missing :
      (id cutoff_ts watermark : ℕ) (db : Db)
      → find_session id db.sessions ≡ none
      → Tables (cleanup_expired_messages engine id cutoff_ts watermark db).1 db.sessions db.messages
  unfolding cleanup_expired_messages get_watermark execute ◌>>=◌ and_run return fail
  cleanup-missing id cutoff_ts watermark db e = ground (arith, works db.executed, e)

  -- what a cleanup of a session that exists leaves of the messages
  pub cleanup-found :
      (id cutoff_ts watermark : ℕ) (s : SessionRow) (db : Db)
      → find_session id db.sessions ≡ some s
      → Tables (cleanup_expired_messages engine id cutoff_ts watermark db).1 db.sessions (
          if min watermark s.consolidation_watermark == 0
          then db.messages
          else retain
              (λ m. not (
                m.session_id == id
                && (ltb m.created_at cutoff_ts
                    && leb m.sequence_num (min watermark s.consolidation_watermark))))
              db.messages)
  unfolding cleanup_expired_messages get_watermark execute ◌>>=◌ and_run return fail delete_messages
  cleanup-found id cutoff_ts watermark s db e =
      ground (arith, works db.executed, works (suc db.executed), e)
