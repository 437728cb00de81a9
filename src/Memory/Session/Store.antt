-- ===== src/Memory/Session/Store.antt =====
-- `SqliteSessionMemory` of avs-memory/src/session/sqlite.rs, operation by operation. The time of a call
-- and a new identifier are arguments; serde_json is a pair of parameters.
use agentverse.Base.{
  ℕ, ◌+◌, String, ◌<>◌, leb, ◌==◌, string_eq, nat_eq, if◌then◌else◌, Option, none, some, List, [],
  ◌∷◌, map, retain, Result, ok, err,
}
use agentverse.Core.Message.{
  ContentBlock, text, MessageRole, system, user, assistant, tool, Message,
}
use agentverse.Memory.Session.Types.{
  SessionStatus, active, status_str, parse_status, Session, new_session, SessionMemoryError,
  not_found, database,
}
use agentverse.Memory.Session.Sql.{
  SessionRow, MessageRow, Engine, Query, return, fail, ◌>>=◌, Statement, execute, in_transaction,
  find_session, update_rows, affected, rows_of, order_by, by_sequence, max_sequence, insert_session,
  insert_message,
}

pub record Codec : Type 0 where
  pub to_json : List ContentBlock → String
  pub from_json : String → Option (List ContentBlock)

unfoldable pub role_to_str : MessageRole → String
role_to_str user = "user"
role_to_str assistant = "assistant"
role_to_str system = "system"
role_to_str tool = "tool"

unfoldable pub str_to_role : String → Result MessageRole SessionMemoryError
str_to_role role =
    if role == "user"
    then ok user
    else if role == "assistant"
    then ok assistant
    else if role == "system"
    then ok system
    else if role == "tool"
    then ok tool
    else err (database ("corrupt message row: unknown role '" <> (role <> "'")))

unfoldable pub decode_content : Codec → String → List ContentBlock
decode_content codec raw = elim (codec.from_json raw) [
  | none ↦ text raw ∷ []
  | some content ↦ content
]

-- the row of a session, with the columns that are not given
abbrev pub row_of_session : Session → Option String → SessionRow
row_of_session s skill = record {
  id = s.id;
  user_id = s.user_id;
  status = status_str s.status;
  created_at = s.created_at;
  updated_at = s.updated_at;
  consolidation_watermark = 0;
  skill_context_json = skill;
  phase_opening_context = none;
  interrupted_state = none;
}

status_of : Result SessionStatus String → SessionStatus
status_of (ok s) = s
status_of (err e) = active

unfoldable pub session_of_row : SessionRow → Session
unfolding status_of parse_status
session_of_row r = record {
  id = r.id;
  user_id = r.user_id;
  status = status_of (parse_status r.status);
  created_at = r.created_at;
  updated_at = r.updated_at;
}

unfoldable pub message_row : Codec → ℕ → Message → ℕ → ℕ → MessageRow
unfolding role_to_str
message_row codec session_id m sequence now = record {
  session_id = session_id;
  role = role_to_str m.role;
  content = codec.to_json m.content;
  sequence_num = sequence;
  created_at = now;
}

with_role :
    List ContentBlock → Result MessageRole SessionMemoryError → Result Message SessionMemoryError
with_role content (ok role) = ok (record { role = role; content = content })
with_role content (err e) = err e

unfoldable pub message_of_row : Codec → MessageRow → Result Message SessionMemoryError
unfolding with_role str_to_role decode_content
message_of_row codec r = with_role (decode_content codec r.content) (str_to_role r.role)

-- `collect` of results: the first error, else the list
next_result :
    {A : Type 0}
    → Result A SessionMemoryError
    → Result (List A) SessionMemoryError
    → Result (List A) SessionMemoryError
next_result (err e) rest = err e
next_result (ok a) (ok rest) = ok (a ∷ rest)
next_result (ok a) (err e) = err e

unfoldable pub collect :
    {A B : Type 0} → (A → Result B SessionMemoryError) → List A → Result (List B) SessionMemoryError
unfolding next_result
collect f [] = ok []
collect f (a ∷ rest) = next_result (f a) (collect f rest)

unfoldable pub lift : {A : Type 0} → Result A SessionMemoryError → Query A
lift r db = (r, db)

option_map : {A B : Type 0} → (A → B) → Option A → Option B
option_map f none = none
option_map f (some a) = some (f a)

-- the query that a session is read with, and one of its columns
select_session : ℕ → Statement (Option SessionRow)
unfolding find_session
select_session id db = some (find_session id db.sessions, db)

unless_missing : {A : Type 0} → ℕ → Option A → Query A
unfolding return fail
unless_missing id none = fail (not_found id)
unless_missing id (some a) = return a

module _ (engine : Engine) where
  unfoldable pub create : ℕ → String → ℕ → Query Session
  unfolding execute insert_session return
  create id user_id now = do
    _ ← execute engine (insert_session (row_of_session (new_session id user_id now) none))
    return (new_session id user_id now)

  unfoldable pub create_with_skill_context : ℕ → String → String → ℕ → Query Session
  unfolding execute insert_session return
  create_with_skill_context id user_id context_json now = do
    _ ←
        execute engine
          (insert_session (row_of_session (new_session id user_id now) (some context_json)))
    return (new_session id user_id now)

  unfoldable pub get : ℕ → Query (Option Session)
  unfolding select_session execute session_of_row option_map return
  get id = do row ← execute engine (select_session id); return (option_map session_of_row row)

  -- an `UPDATE` of one row, which reports a missing session
  unfoldable pub update : ℕ → (SessionRow → SessionRow) → Query (Unit {0})
  unfolding execute update_rows affected return fail
  update id f = do
    n ← execute engine (λ db.
        some (affected id db.sessions, record db { sessions = update_rows id f db.sessions }))
    if n == 0 then fail (not_found id) else return tt

  unfoldable pub update_status : ℕ → SessionStatus → ℕ → Query (Unit {0})
  unfolding update status_str
  update_status id status now =
      update id (λ r. record r { status = status_str status; updated_at = now })

  unfoldable pub list_by_user : String → Query (List Session)
  unfolding execute order_by session_of_row return
  list_by_user user_id = do
    rows ← execute engine (λ db. some (
      order_by (λ a b. leb b.created_at a.created_at)
          (retain (λ r. r.user_id == user_id) db.sessions),
      db,
    ))
    return (map session_of_row rows)

  unfoldable pub select_next_sequence : ℕ → Query ℕ
  unfolding execute max_sequence
  select_next_sequence id =
      execute engine (λ db. some (max_sequence (rows_of id db.messages) + 1, db))

  unfoldable pub unless_known : ℕ → Option Session → Query (Unit {0})
  unfolding return fail
  unless_known id none = fail (not_found id)
  unless_known id (some s) = return tt

  module _ (codec : Codec) where
    unfoldable pub append_message : ℕ → Message → ℕ → Query (Unit {0})
    unfolding get unless_known in_transaction select_next_sequence execute insert_message
        message_row
    append_message id m now = do
      found ← get id
      _ ← unless_known id found
      in_transaction engine (
          select_next_sequence id >>= λ n.
          execute engine (insert_message (message_row codec id m n now)))

    unfoldable pub append_turn : ℕ → Message → Message → ℕ → Query (Unit {0})
    unfolding get unless_known in_transaction select_next_sequence execute insert_message
        message_row
    append_turn id user_message assistant_message now = do
      found ← get id
      _ ← unless_known id found
      in_transaction engine (
          select_next_sequence id >>= λ n.
          execute engine (insert_message (message_row codec id user_message n now)) >>= λ _.
          execute engine (insert_message (message_row codec id assistant_message (n + 1) now)))

    unfoldable pub load_messages : ℕ → Query (List Message)
    unfolding execute order_by lift collect message_of_row
    load_messages id = do
      rows ← execute engine (λ db. some (by_sequence (rows_of id db.messages), db))
      lift (collect (message_of_row codec) rows)

  unfoldable pub set_skill_context : ℕ → Option String → Query (Unit {0})
  unfolding update
  set_skill_context id context_json =
      update id (λ r. record r { skill_context_json = context_json })

  unfoldable pub set_phase_opening_context : ℕ → Option String → Query (Unit {0})
  unfolding update
  set_phase_opening_context id context =
      update id (λ r. record r { phase_opening_context = context })

  unfoldable pub set_interrupted_state : ℕ → Option String → Query (Unit {0})
  unfolding update
  set_interrupted_state id state_json = update id (λ r. record r { interrupted_state = state_json })

  unfoldable pub apply_phase_transition : ℕ → String → String → Query (Unit {0})
  unfolding update
  apply_phase_transition id skill_ctx_json phase_ctx = update id (λ r. record r {
    skill_context_json = some skill_ctx_json;
    phase_opening_context = some phase_ctx;
  })

  -- one column of a session, which is missing with its session
  column : (SessionRow → Option String) → ℕ → Query (Option String)
  unfolding select_session execute unless_missing option_map
  column f id = do row ← execute engine (select_session id); unless_missing id (option_map f row)

  unfoldable pub get_skill_context : ℕ → Query (Option String)
  unfolding column
  get_skill_context = column (λ r. r.skill_context_json)

  unfoldable pub get_phase_opening_context : ℕ → Query (Option String)
  unfolding column
  get_phase_opening_context = column (λ r. r.phase_opening_context)

  unfoldable pub get_interrupted_state : ℕ → Query (Option String)
  unfolding column
  get_interrupted_state = column (λ r. r.interrupted_state)
