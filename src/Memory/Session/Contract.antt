-- ===== src/Memory/Session/Contract.antt =====
-- What the trait `SessionMemory` of avs-memory/src/session/store.rs promises, session by session: a
-- session is a row and a log of messages in the order of their numbers, and each operation acts on the
-- session that it names alone. Nothing here speaks of tables, statements or transactions.
use agentverse.Base.{
  ℕ, ◌+◌, String, Bool, true, not, ◌&&◌, ltb, leb, min, ◌==◌, string_eq, nat_eq, if◌then◌else◌,
  Option, none, some, List, [], ◌∷◌, ◌++◌, retain,
}
use agentverse.Core.Message.{Message}
use agentverse.Memory.Session.Types.{SessionStatus, status_str, new_session}
use agentverse.Memory.Session.Sql.{
  SessionRow, MessageRow, Db, Engine, find_session, rows_of, by_sequence, max_sequence,
}
use agentverse.Memory.Session.Store.{
  Codec, row_of_session, message_row, create, create_with_skill_context, update_status,
  append_message, append_turn, set_skill_context, set_phase_opening_context, set_interrupted_state,
  apply_phase_transition,
}
use agentverse.Memory.Session.Maintenance.{
  advance_watermark, cleanup_expired_messages, delete_ended_sessions_before, delete_session,
}

pub record View : Type 0 where
  pub row : SessionRow
  pub log : List MessageRow

abbrev pub view_of : List MessageRow → Option SessionRow → Option View
view_of log none = none
view_of log (some row) = some (record { row = row; log = log })

-- the session that the tables hold under an identifier
abbrev pub view : ℕ → Db → Option View
view j db = view_of (by_sequence (rows_of j db.messages)) (find_session j db.sessions)

pub data Op : Type 0 where
  creates : (id : ℕ) (user_id : String) → Op
  creates_with_skill : (id : ℕ) (user_id context_json : String) → Op
  posts : (id : ℕ) → Message → Op
  takes_turn : (id : ℕ) (user_message assistant_message : Message) → Op
  sets_status : (id : ℕ) → SessionStatus → Op
  sets_skill sets_phase sets_interrupted : (id : ℕ) → Option String → Op
  moves_phase : (id : ℕ) (skill_ctx_json phase_ctx : String) → Op
  advances : (id watermark : ℕ) → Op
  cleans_up : (id cutoff_ts watermark : ℕ) → Op
  deletes_ended : (cutoff_ts : ℕ) → Op
  deletes : (id : ℕ) → Op

module _ (engine : Engine) (codec : Codec) (now : ℕ) where
  unfoldable pub step : Op → Db → Db
  step (creates id user_id) db = (create engine id user_id now db).1
  step (creates_with_skill id user_id context_json) db =
      (create_with_skill_context engine id user_id context_json now db).1
  step (posts id m) db = (append_message engine codec id m now db).1
  step (takes_turn id u a) db = (append_turn engine codec id u a now db).1
  step (sets_status id s) db = (update_status engine id s now db).1
  step (sets_skill id c) db = (set_skill_context engine id c db).1
  step (sets_phase id c) db = (set_phase_opening_context engine id c db).1
  step (sets_interrupted id c) db = (set_interrupted_state engine id c db).1
  step (moves_phase id c p) db = (apply_phase_transition engine id c p db).1
  step (advances id n) db = (advance_watermark engine id n db).1
  step (cleans_up id cutoff_ts n) db = (cleanup_expired_messages engine id cutoff_ts n db).1
  step (deletes_ended cutoff_ts) db = (delete_ended_sessions_before engine cutoff_ts db).1
  step (deletes id) db = (delete_session engine id db).1

-- a change of the session under one identifier
unfoldable pub on_view : Bool → (View → Option View) → Option View → Option View
on_view b f none = none
on_view b f (some v) = if b then f v else some v

abbrev pub change_row : (SessionRow → SessionRow) → View → Option View
change_row f v = some (record v { row = f v.row })

abbrev pub next_number : View → ℕ
next_number v = max_sequence v.log + 1

unfoldable pub added : Bool → SessionRow → Option View → Option View
added b row none = if b then some (record { row = row; log = [] }) else none
added b row (some v) = some v

-- the messages that may be pruned: old ones up to a watermark, and never beyond that of the session
abbrev pub is_pruned : ℕ → ℕ → SessionRow → MessageRow → Bool
is_pruned cutoff_ts watermark row m =
    ltb m.created_at cutoff_ts && leb m.sequence_num (min watermark row.consolidation_watermark)

abbrev pub has_ended : ℕ → SessionRow → Bool
has_ended cutoff_ts r = not (r.status == "active") && ltb r.updated_at cutoff_ts

module _ (codec : Codec) (now j : ℕ) where
  unfoldable pub promised : Op → Option View → Option View
  unfolding on_view added status_str
  promised (creates id user_id) = added (id == j) (row_of_session (new_session id user_id now) none)
  promised (creates_with_skill id user_id c) =
      added (id == j) (row_of_session (new_session id user_id now) (some c))
  promised (posts id m) =
      on_view (id == j)
        (λ v. some (record v { log = v.log ++ message_row codec id m (next_number v) now ∷ [] }))
  promised (takes_turn id u a) = on_view (id == j) (λ v. some (record v {
    log =
        (v.log ++ message_row codec id u (next_number v) now ∷ [])
        ++ message_row codec id a (next_number v + 1) now ∷ [];
  }))
  promised (sets_status id s) =
      on_view (id == j) (change_row (λ r. record r { status = status_str s; updated_at = now }))
  promised (sets_skill id c) =
      on_view (id == j) (change_row (λ r. record r { skill_context_json = c }))
  promised (sets_phase id c) =
      on_view (id == j) (change_row (λ r. record r { phase_opening_context = c }))
  promised (sets_interrupted id c) =
      on_view (id == j) (change_row (λ r. record r { interrupted_state = c }))
  promised (moves_phase id c p) =
      on_view (id == j)
        (change_row (λ r. record r { skill_context_json = some c; phase_opening_context = some p }))
  promised (advances id n) = on_view (id == j) (
      change_row (λ r. record r {
        consolidation_watermark =
            if ltb r.consolidation_watermark n then n else r.consolidation_watermark;
      }))
  promised (cleans_up id cutoff_ts n) = on_view (id == j) (λ v. some (record v {
    log =
        if min n v.row.consolidation_watermark == 0
        then v.log
        else retain (λ m. not (is_pruned cutoff_ts n v.row m)) v.log;
  }))
  promised (deletes_ended cutoff_ts) =
      on_view true (λ v. if has_ended cutoff_ts v.row then none else some v)
  promised (deletes id) = on_view (id == j) (λ v. none)
