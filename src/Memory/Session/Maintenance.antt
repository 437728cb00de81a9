-- ===== src/Memory/Session/Maintenance.antt =====
-- avs-memory/src/session/sqlite_maintenance.rs: the watermark of the consolidated messages, and what
-- the background workers and the user delete.
use agentverse.Base.{
  ℕ, String, Bool, not, ◌&&◌, ◌||◌, ltb, leb, min, ◌==◌, string_eq, nat_eq, if◌then◌else◌, Option,
  none, some, List, map, retain, any, Result, ok, err,
}
use agentverse.Core.Message.{Message}
use agentverse.Memory.Session.Types.{Session, SessionMemoryError, database}
use agentverse.Memory.Session.Sql.{
  SessionRow, MessageRow, Engine, Query, return, fail, ◌>>=◌, execute, find_session, rows_of,
  order_by, by_sequence, delete_sessions, delete_messages,
}
use agentverse.Memory.Session.Store.{Codec, session_of_row, message_of_row, collect, lift, update}

watermark_of : Option SessionRow → Option ℕ
watermark_of none = none
watermark_of (some r) = some r.consolidation_watermark

the_row : String → Option ℕ → Query ℕ
unfolding return fail
the_row text none = fail (database text)
the_row text (some n) = return n

unfoldable pub numbered : Codec → MessageRow → Result (ℕ × Message) SessionMemoryError
unfolding message_of_row
numbered codec r = elim (message_of_row codec r) [ ok m ↦ ok (r.sequence_num, m) | err e ↦ err e ]

-- the messages that a session still has to have consolidated or pruned
needs_maintenance : ℕ → List MessageRow → SessionRow → Bool
needs_maintenance now messages r =
    any
      (λ m.
        m.session_id == r.id
        && (ltb r.consolidation_watermark m.sequence_num
            || (leb m.sequence_num r.consolidation_watermark && ltb m.created_at now)))
      messages

module _ (engine : Engine) where
  unfoldable pub get_watermark : ℕ → Query ℕ
  unfolding execute find_session watermark_of the_row
  get_watermark id = do
    row ← execute engine (λ db. some (watermark_of (find_session id db.sessions), db))
    the_row engine.row_not_found row

  unfoldable pub advance_watermark : ℕ → ℕ → Query (Unit {0})
  unfolding update
  advance_watermark id new_watermark = update engine id (λ r. record r {
    consolidation_watermark =
        if ltb r.consolidation_watermark new_watermark
        then new_watermark
        else r.consolidation_watermark;
  })

  unfoldable pub load_messages_above_watermark : Codec → ℕ → Query (List (ℕ × Message))
  unfolding get_watermark execute order_by lift collect numbered
  load_messages_above_watermark codec id = do
    wm ← get_watermark id
    rows ← execute engine (λ db.
        some (by_sequence (retain (λ m. ltb wm m.sequence_num) (rows_of id db.messages)), db))
    lift (collect (numbered codec) rows)

  unfoldable pub list_sessions_needing_maintenance : ℕ → Query (List Session)
  unfolding execute needs_maintenance order_by session_of_row return
  list_sessions_needing_maintenance now = do
    rows ← execute engine (λ db. some (
      order_by (λ a b. leb a.updated_at b.updated_at)
          (retain (needs_maintenance now db.messages) db.sessions),
      db,
    ))
    return (map session_of_row rows)

  -- what is deleted up to a watermark that is not 0
  prune : ℕ → ℕ → ℕ → Query ℕ
  unfolding execute delete_messages return
  prune id cutoff_ts effective_watermark =
      if effective_watermark == 0
      then return 0
      else execute engine (
          delete_messages (λ m.
            m.session_id == id
            && (ltb m.created_at cutoff_ts && leb m.sequence_num effective_watermark)))

  unfoldable pub cleanup_expired_messages : ℕ → ℕ → ℕ → Query ℕ
  unfolding get_watermark prune return
  cleanup_expired_messages id cutoff_ts watermark =
      if watermark == 0
      then return 0
      else get_watermark id >>= λ stored_wm. prune id cutoff_ts (min watermark stored_wm)

  unfoldable pub delete_ended_sessions_before : ℕ → Query ℕ
  unfolding execute delete_sessions
  delete_ended_sessions_before cutoff_ts =
      execute engine
        (delete_sessions (λ r. not (r.status == "active") && ltb r.updated_at cutoff_ts))

  unfoldable pub delete_session : ℕ → Query (Unit {0})
  unfolding execute delete_sessions return
  delete_session id = do _ ← execute engine (delete_sessions (λ r. r.id == id)); return tt
