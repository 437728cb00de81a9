-- ===== src/Memory/Session/Retention.antt =====
-- What the pruning of old messages spares, and what becomes of a session that was pruned whole.
use agentverse.Base.{
  ℕ, suc, ◌+◌, ◌++◌, ok, ◌≤◌, Bool, true, not, ◌&&◌, ltb, leb, min, ◌==◌, nat_eq, ◌≡◌, refl, ap,
  sym, ◌∙◌, inl, inr, Bool-cases, Option, none, some, Option-cases, List, [], ◌∷◌, retain, Result,
  err, arith,
}
use agentverse.Core.Message.{Message}
use agentverse.Memory.Session.Types.{SessionMemoryError, database}
use agentverse.Memory.Session.Sql.{
  SessionRow, MessageRow, Db, Engine, return, fail, ◌>>=◌, and_run, execute, find_session, rows_of,
  by_sequence, max_sequence, order_by,
}
use agentverse.Memory.Session.Store.{Codec, collect, lift, append_turn, message_row}
use agentverse.Memory.Session.Maintenance.{
  cleanup_expired_messages, get_watermark, load_messages_above_watermark, numbered,
}
use agentverse.Memory.Session.Tables.{rows_of-append}
use agentverse.Memory.Session.Runs.{Works, append_turn-found, cleanup-found, cleanup-missing}

spared :
    (j id : ℕ) (old : MessageRow → Bool) (w wm : ℕ) (ms : List MessageRow)
    → (id == j ≡ true → w ≤ wm)
    → retain
        (λ m. ltb wm m.sequence_num)
        (rows_of j (retain (λ m. not (m.session_id == id && (old m && leb m.sequence_num w))) ms))
      ≡ retain (λ m. ltb wm m.sequence_num) (rows_of j ms)
spared j id old w wm [] le = refl
spared j id old w wm (m ∷ ms) le = ground (arith, spared j id old w wm ms le, le)

above_of :
    Engine
    → Codec
    → ℕ
    → Option SessionRow
    → List MessageRow
    → Result (List (ℕ × Message)) SessionMemoryError
unfolding collect
above_of engine codec j none ms = err (database engine.row_not_found)
above_of engine codec j (some s) ms =
    collect (numbered codec)
      (by_sequence (retain (λ m. ltb s.consolidation_watermark m.sequence_num) (rows_of j ms)))

module _ (engine : Engine) (codec : Codec) (works : Works engine) (j : ℕ) where
  load_above-of :
      (db : Db)
      → (load_messages_above_watermark engine codec j db).0
        ≡ above_of engine codec j (find_session j db.sessions) db.messages
  unfolding load_messages_above_watermark get_watermark execute ◌>>=◌ and_run return fail lift
      above_of
  load_above-of db = elim (Option-cases (find_session j db.sessions)) [
    | inl e ↦ ground (arith, works db.executed, e)
    | inr (s, e) ↦ ground (arith, works db.executed, works (suc db.executed), e)
  ]

  pub load_above-Tables :
      (t db : Db)
      → t.sessions ≡ db.sessions
      → t.messages ≡ db.messages
      → (load_messages_above_watermark engine codec j t).0
        ≡ (load_messages_above_watermark engine codec j db).0
  load_above-Tables t db sessions messages =
      load_above-of t ∙ rw (sessions, messages) (sym (load_above-of db))

  above-cleanup :
      (id cutoff_ts watermark : ℕ) (s : SessionRow) (db : Db)
      → find_session id db.sessions ≡ some s
      → above_of engine codec j (find_session j db.sessions) (
          retain
            (λ m. not (
              m.session_id == id
              && (ltb m.created_at cutoff_ts
                  && leb m.sequence_num (min watermark s.consolidation_watermark))))
            db.messages)
        ≡ above_of engine codec j (find_session j db.sessions) db.messages
  unfolding above_of
  above-cleanup id cutoff_ts watermark s db e = elim (Option-cases (find_session j db.sessions)) [
    | inl n ↦ rw n refl
    | inr (t, f) ↦ rw f (
        ap (λ ms. collect (numbered codec) (by_sequence ms))
          (spared j id (λ m. ltb m.created_at cutoff_ts) _ t.consolidation_watermark db.messages
            (λ same. ground (arith, e, f, same))))
  ]

-- Whatever watermark the caller names, pruning old messages leaves every message whose number is above
-- the watermark of its session: what is read above the watermark of any session is what was read
-- before. This is a statement on numbers, and not that no message is lost that was never consolidated:
-- once all rows of a session are pruned its numbers begin again at 1, so that later messages stand at
-- or below its watermark, are not read for consolidation and are pruned. The database answers every
-- statement.
pub load_above-cleanup :
    (engine : Engine) (codec : Codec) (id cutoff_ts watermark j : ℕ) (db : Db)
    → Works engine
    → (load_messages_above_watermark engine codec j
        (cleanup_expired_messages engine id cutoff_ts watermark db).1).0
      ≡ (load_messages_above_watermark engine codec j db).0
load_above-cleanup engine codec id cutoff_ts watermark j db works =
    load_above-of engine codec works j (cleanup_expired_messages engine id cutoff_ts watermark db).1
    ∙ elim (Option-cases (find_session id db.sessions)) [
      | inl e ↦
          let at = cleanup-missing engine works id cutoff_ts watermark db e in rw (at.0, at.1) refl
      | inr (s, e) ↦
          let at = cleanup-found engine works id cutoff_ts watermark s db e in
          rw (at.0, at.1)
            (elim (Bool-cases (min watermark s.consolidation_watermark == 0)) [
              | inl z ↦ rw z refl
              | inr z ↦ rw z (above-cleanup engine codec works j id cutoff_ts watermark s db e)
            ])
    ]
    ∙ sym (load_above-of engine codec works j db)

none-above :
    (id wm : ℕ) (first second : MessageRow) (ms : List MessageRow)
    → rows_of id ms ≡ []
    → first.session_id ≡ id
    → second.session_id ≡ id
    → first.sequence_num ≤ wm
    → second.sequence_num ≤ wm
    → retain (λ m. ltb wm m.sequence_num) (rows_of id ((ms ++ first ∷ []) ++ second ∷ [])) ≡ []
none-above id wm first second ms pruned s1 s2 le1 le2 = ground (
  arith,
  pruned,
  s1,
  s2,
  le1,
  le2,
  rows_of-append id ms first,
  rows_of-append id (ms ++ first ∷ []) second,
)

-- Where all messages of a session were pruned and its watermark is 2 or more, a turn that is appended is
-- never read for consolidation: its two messages get the numbers 1 and 2. The database answers every
-- statement.
load_above-restarted :
    (engine : Engine) (codec : Codec) (id : ℕ) (u a : Message) (now : ℕ) (s : SessionRow) (db : Db)
    → Works engine
    → find_session id db.sessions ≡ some s
    → rows_of id db.messages ≡ []
    → 2 ≤ s.consolidation_watermark
    → (load_messages_above_watermark engine codec id (append_turn engine codec id u a now db).1).0
      ≡ ok []
unfolding above_of message_row collect order_by max_sequence
load_above-restarted engine codec id u a now s db works found pruned high =
    let n : ℕ = max_sequence (rows_of id db.messages) + 1 in
    let one : n ≡ 1 = rw (pruned, max_sequence) (omega arith) in
    load_above-of engine codec works id (append_turn engine codec id u a now db).1
    ∙ rw (append_turn-found engine works codec id u a now s db found, found, above_of)
        (ap (λ ms. collect (numbered codec) (by_sequence ms))
          (none-above id s.consolidation_watermark (message_row codec id u n now)
            (message_row codec id a (n + 1) now) db.messages pruned refl refl
            (omega (arith, one, high)) (omega (arith, one, high))))
