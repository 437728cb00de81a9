-- ===== src/Memory/Session/Sql.antt =====
-- The two tables of avs-memory/migrations and the statements that avs-memory/src/session sends to
-- them. A statement either fails, which the parameter `fault` decides by the number of statements sent
-- before it, and then changes nothing; or it reads and changes the tables as SQL says.
use agentverse.Base.{
  ℕ, suc, String, Bool, not, ltb, leb, ◌==◌, string_eq, nat_eq, if◌then◌else◌, Option, none, some,
  List, [], ◌∷◌, ◌++◌, retain, length, any, Result, ok, err,
}
use agentverse.Memory.Session.Types.{SessionMemoryError, database}

pub record SessionRow : Type 0 where
  pub id : ℕ
  pub user_id : String
  pub status : String
  pub created_at : ℕ
  pub updated_at : ℕ
  pub consolidation_watermark : ℕ
  pub skill_context_json : Option String
  pub phase_opening_context : Option String
  pub interrupted_state : Option String

pub record MessageRow : Type 0 where
  pub session_id : ℕ
  pub role : String
  pub content : String
  pub sequence_num : ℕ
  pub created_at : ℕ

pub record Db : Type 0 where
  pub sessions : List SessionRow
  pub messages : List MessageRow
  pub executed : ℕ

-- what the store runs on: the failures of the database, and its texts for a violated constraint and
-- for a query that must find a row and does not
pub record Engine : Type 0 where
  pub fault : ℕ → Option String
  pub constraint_failed : String
  pub row_not_found : String

abbrev pub Query : Type 0 → Type 0
Query A = Db → Result A SessionMemoryError × Db

unfoldable pub return : {A : Type 0} → A → Query A
return a db = (ok a, db)

unfoldable pub fail : {A : Type 0} → SessionMemoryError → Query A
fail e db = (err e, db)

unfoldable pub and_run :
    {A B : Type 0}
    → Result A SessionMemoryError × Db
    → (A → Query B)
    → Result B SessionMemoryError × Db
and_run (ok a, db) next = next a db
and_run (err e, db) next = (err e, db)

infixl 5 ◌>>=◌
unfoldable pub ◌>>=◌ : {A B : Type 0} → Query A → (A → Query B) → Query B
unfolding and_run
(q >>= next) db = and_run (q db) next

-- a statement on the tables: `none` where it violates a constraint
abbrev pub Statement : Type 0 → Type 0
Statement A = Db → Option (A × Db)

settle : {A : Type 0} → String → Db → Option (A × Db) → Result A SessionMemoryError × Db
settle text db none = (err (database text), db)
settle text db (some (a, t)) = (ok a, t)

-- what is undone when a transaction is dropped before its commit
unfoldable pub rolled_back :
    {A : Type 0} → Db → Result A SessionMemoryError × Db → Result A SessionMemoryError × Db
rolled_back before (ok a, db) = (ok a, db)
rolled_back before (err e, db) = (err e, record before { executed = db.executed })

module _ (engine : Engine) where
  attempt : {A : Type 0} → Statement A → Option String → Query A
  unfolding settle
  attempt stmt (some e) db = (err (database e), db)
  attempt stmt none db = settle engine.constraint_failed db (stmt db)

  unfoldable pub execute : {A : Type 0} → Statement A → Query A
  unfolding attempt
  execute stmt db =
      attempt stmt (engine.fault db.executed) (record db { executed = suc db.executed })

  unfoldable pub begin_or_commit : Query (Unit {0})
  unfolding execute
  begin_or_commit = execute (λ db. some (tt, db))

  unfoldable pub in_transaction : {A : Type 0} → Query A → Query A
  unfolding begin_or_commit rolled_back
  in_transaction body = begin_or_commit >>= λ _.
      λ db. rolled_back db ((body >>= λ a. begin_or_commit >>= λ _. return a) db)

-- `SELECT ... FROM sessions WHERE id = ?`
unfoldable pub find_session : ℕ → List SessionRow → Option SessionRow
find_session id [] = none
find_session id (r ∷ rs) = if r.id == id then some r else find_session id rs

-- `UPDATE sessions SET ... WHERE id = ?`, and how many rows it affects
unfoldable pub update_rows : ℕ → (SessionRow → SessionRow) → List SessionRow → List SessionRow
update_rows id f [] = []
update_rows id f (r ∷ rs) = (if r.id == id then f r else r) ∷ update_rows id f rs

unfoldable pub affected : ℕ → List SessionRow → ℕ
affected id [] = 0
affected id (r ∷ rs) = if r.id == id then suc (affected id rs) else affected id rs

-- `SELECT ... FROM messages WHERE session_id = ?`
abbrev pub rows_of : ℕ → List MessageRow → List MessageRow
rows_of id = retain (λ m. m.session_id == id)

-- `ORDER BY`, with the test that a row may stand before another; rows that are alike stay as they are
module _ {A : Type 0} (before : A → A → Bool) where
  unfoldable pub insert_by : A → List A → List A
  insert_by a [] = a ∷ []
  insert_by a (b ∷ bs) = let rest = insert_by a bs in if before a b then a ∷ b ∷ bs else b ∷ rest

  unfoldable pub order_by : List A → List A
  unfolding insert_by
  order_by [] = []
  order_by (a ∷ rest) = insert_by a (order_by rest)

abbrev pub by_sequence : List MessageRow → List MessageRow
by_sequence = order_by (λ a b. leb a.sequence_num b.sequence_num)

-- `SELECT COALESCE(MAX(sequence_num), 0)`
unfoldable pub max_sequence : List MessageRow → ℕ
max_sequence [] = 0
max_sequence (m ∷ ms) =
    let rest = max_sequence ms in if ltb m.sequence_num rest then rest else m.sequence_num

-- `INSERT INTO sessions`, whose identifiers are a primary key
unfoldable pub insert_session : SessionRow → Statement (Unit {0})
unfolding find_session
insert_session row db = elim (find_session row.id db.sessions) [
  | some r ↦ none
  | none ↦ some (tt, record db { sessions = db.sessions ++ row ∷ [] })
]

-- `INSERT INTO messages`: the session exists and the pair of session and number is new
unfoldable pub insert_message : MessageRow → Statement (Unit {0})
unfolding find_session
insert_message row db = elim (find_session row.session_id db.sessions) [
  | none ↦ none
  | some r ↦
      if any (λ m. m.sequence_num == row.sequence_num) (rows_of row.session_id db.messages)
      then none
      else some (tt, record db { messages = db.messages ++ row ∷ [] })
]

-- `DELETE FROM sessions WHERE`, which deletes the messages of the deleted sessions
unfoldable pub delete_sessions : (SessionRow → Bool) → Statement ℕ
delete_sessions p db = some (
  length (retain p db.sessions),
  record db {
    sessions = retain (λ r. not (p r)) db.sessions;
    messages =
        retain (λ m. not (any (λ r. r.id == m.session_id) (retain p db.sessions))) db.messages;
  },
)

-- `DELETE FROM messages WHERE`
unfoldable pub delete_messages : (MessageRow → Bool) → Statement ℕ
delete_messages p db =
    some
      (length (retain p db.messages), record db { messages = retain (λ m. not (p m)) db.messages })
