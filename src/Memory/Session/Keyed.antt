-- ===== src/Memory/Session/Keyed.antt =====
-- Every operation of the store keeps the primary key and the reference.
use agentverse.Base.{
  ℕ, Bool, not, ◌&&◌, min, ◌==◌, nat_eq, ◌≡◌, refl, sym, subst, inl, inr, Bool-cases, none, some,
  Option-cases, List, [], ◌∷◌, ◌++◌, retain, any, arith,
}
use agentverse.Core.Message.{Message}
use agentverse.Memory.Session.Sql.{
  SessionRow, MessageRow, Db, Engine, find_session, update_rows, execute, insert_session,
  delete_sessions,
}
use agentverse.Memory.Session.Store.{
  Codec, message_row, update, update_status, set_skill_context, set_phase_opening_context,
  set_interrupted_state, apply_phase_transition, create, create_with_skill_context, append_message,
  append_turn,
}
use agentverse.Memory.Session.Maintenance.{
  advance_watermark, cleanup_expired_messages, delete_ended_sessions_before, delete_session,
}
use agentverse.Memory.Session.Contract.{
  Op, creates, creates_with_skill, posts, takes_turn, sets_status, sets_skill, sets_phase,
  sets_interrupted, moves_phase, advances, cleans_up, deletes_ended, deletes, step,
}
use agentverse.Memory.Session.Tables.{find-update_rows, find-append, rows_of-append}
use agentverse.Memory.Session.Keys.{
  IsUnique, IsLinked, any-retain, find-retain, rows_of-retain, rows_of-pruned, update_rows-IsUnique,
  append-IsUnique, retain-IsUnique,
}
use agentverse.Memory.Session.Runs.{
  Works, Tables, update-Tables, insert_session-Tables, insert_session-taken, delete_sessions-Tables,
  append_message-missing, append_message-found, append_turn-missing, append_turn-found,
  cleanup-missing, cleanup-found, return-keeps,
}

-- No identifier stands twice, and each message belongs to a session that exists.
abbrev pub IsKeyed : Db → Type 0
IsKeyed db = IsUnique db.sessions × IsLinked db.sessions db.messages

AreKeyed : List SessionRow → List MessageRow → Type 0
AreKeyed rs ms = IsUnique rs × IsLinked rs ms

Tables-IsKeyed :
    (t : Db) (rs : List SessionRow) (ms : List MessageRow)
    → Tables t rs ms
    → AreKeyed rs ms
    → IsKeyed t
unfolding AreKeyed
Tables-IsKeyed t rs ms at keyed = rw (at.0, at.1) keyed

module _ (rs : List SessionRow) (ms : List MessageRow) (keyed : AreKeyed rs ms) where
  update-AreKeyed :
      (id : ℕ) (f : SessionRow → SessionRow)
      → ((r : SessionRow) → (f r).id ≡ r.id)
      → AreKeyed (update_rows id f rs) ms
  unfolding AreKeyed
  update-AreKeyed id f keeps = (
    update_rows-IsUnique id f rs keeps keyed.0,
    λ j e. keyed.1 j (ground (arith, find-update_rows j id f rs keeps)),
  )

  insert-AreKeyed :
      (row : SessionRow) → find_session row.id rs ≡ none → AreKeyed (rs ++ row ∷ []) ms
  unfolding AreKeyed
  insert-AreKeyed row new = (
    append-IsUnique rs row new keyed.0,
    λ j e. keyed.1 j (ground (arith, find-append j rs row new)),
  )

  delete-AreKeyed :
      (p : SessionRow → Bool)
      → AreKeyed
          (retain (λ r. not (p r)) rs)
          (retain (λ m. not (any (λ r. r.id == m.session_id) (retain p rs))) ms)
  unfolding AreKeyed
  delete-AreKeyed p = (
    retain-IsUnique (λ r. not (p r)) rs keyed.0,
    λ j e. ground (
      arith,
      keyed.1 j,
      find-retain j p rs keyed.0,
      any-retain j p rs keyed.0,
      rows_of-retain j (λ k. any (λ r. r.id == k) (retain p rs)) ms,
    ),
  )

  append-AreKeyed :
      (row : MessageRow) (s : SessionRow)
      → find_session row.session_id rs ≡ some s
      → AreKeyed rs (ms ++ row ∷ [])
  unfolding AreKeyed
  append-AreKeyed row s found =
      (keyed.0, λ j e. ground (arith, keyed.1 j, rows_of-append j ms row, found))

  prune-AreKeyed :
      (id : ℕ) (p : MessageRow → Bool)
      → AreKeyed rs (retain (λ m. not (m.session_id == id && p m)) ms)
  unfolding AreKeyed
  prune-AreKeyed id p = (keyed.0, λ j e. ground (arith, keyed.1 j e, rows_of-pruned j id p ms))

module _ (engine : Engine) (works : Works engine) (codec : Codec) (now : ℕ) (db : Db)
    (keyed : IsKeyed db) where
  updated-IsKeyed :
      (id : ℕ) (f : SessionRow → SessionRow)
      → ((r : SessionRow) → (f r).id ≡ r.id)
      → IsKeyed (update engine id f db).1
  unfolding AreKeyed
  updated-IsKeyed id f keeps =
      Tables-IsKeyed (update engine id f db).1 _ _ (update-Tables engine works id f db)
        (update-AreKeyed db.sessions db.messages keyed id f keeps)

  inserted-IsKeyed : (row : SessionRow) → IsKeyed (execute engine (insert_session row) db).1
  unfolding AreKeyed
  inserted-IsKeyed row = elim (Option-cases (find_session row.id db.sessions)) [
    | inl e ↦
        Tables-IsKeyed (execute engine (insert_session row) db).1 _ _
          (insert_session-Tables engine works row db e)
          (insert-AreKeyed db.sessions db.messages keyed row e)
    | inr (s, e) ↦
        Tables-IsKeyed (execute engine (insert_session row) db).1 _ _
          (insert_session-taken engine works row s db e) keyed
  ]

  deleted-IsKeyed : (p : SessionRow → Bool) → IsKeyed (execute engine (delete_sessions p) db).1
  unfolding AreKeyed
  deleted-IsKeyed p =
      Tables-IsKeyed (execute engine (delete_sessions p) db).1 _ _
        (delete_sessions-Tables engine works p db) (delete-AreKeyed db.sessions db.messages keyed p)

  posted-IsKeyed : (id : ℕ) (m : Message) → IsKeyed (append_message engine codec id m now db).1
  unfolding AreKeyed message_row
  posted-IsKeyed id m = elim (Option-cases (find_session id db.sessions)) [
    | inl e ↦
        Tables-IsKeyed (append_message engine codec id m now db).1 _ _
          (append_message-missing engine works codec id m now db e) keyed
    | inr (s, e) ↦
        rw (append_message-found engine works codec id m now s db e)
          (append-AreKeyed db.sessions db.messages keyed _ s e)
  ]

  turned-IsKeyed : (id : ℕ) (u a : Message) → IsKeyed (append_turn engine codec id u a now db).1
  unfolding AreKeyed message_row
  turned-IsKeyed id u a = elim (Option-cases (find_session id db.sessions)) [
    | inl e ↦
        Tables-IsKeyed (append_turn engine codec id u a now db).1 _ _
          (append_turn-missing engine works codec id u a now db e) keyed
    | inr (s, e) ↦
        rw (append_turn-found engine works codec id u a now s db e) (
          append-AreKeyed db.sessions _ (append-AreKeyed db.sessions db.messages keyed _ s e) _ s e)
  ]

  cleaned-IsKeyed :
      (id cutoff_ts watermark : ℕ)
      → IsKeyed (cleanup_expired_messages engine id cutoff_ts watermark db).1
  unfolding AreKeyed
  cleaned-IsKeyed id cutoff_ts watermark = elim (Option-cases (find_session id db.sessions)) [
    | inl e ↦
        Tables-IsKeyed (cleanup_expired_messages engine id cutoff_ts watermark db).1 _ _
          (cleanup-missing engine works id cutoff_ts watermark db e) keyed
    | inr (s, e) ↦
        Tables-IsKeyed (cleanup_expired_messages engine id cutoff_ts watermark db).1 _ _
          (cleanup-found engine works id cutoff_ts watermark s db e)
          (elim (Bool-cases (min watermark s.consolidation_watermark == 0)) [
            | inl z ↦ rw z keyed
            | inr z ↦ rw z (prune-AreKeyed db.sessions db.messages keyed id _)
          ])
  ]

  -- Each operation of the store keeps the keys.
  pub step-IsKeyed : (op : Op) → IsKeyed (step engine codec now op db)
  unfolding step create create_with_skill_context update_status set_skill_context
      set_phase_opening_context set_interrupted_state apply_phase_transition advance_watermark
      delete_ended_sessions_before delete_session
  step-IsKeyed (creates id user_id) = subst IsKeyed (sym (return-keeps _ _ db)) (inserted-IsKeyed _)
  step-IsKeyed (creates_with_skill id user_id c) =
      subst IsKeyed (sym (return-keeps _ _ db)) (inserted-IsKeyed _)
  step-IsKeyed (posts id m) = posted-IsKeyed id m
  step-IsKeyed (takes_turn id u a) = turned-IsKeyed id u a
  step-IsKeyed (sets_status id s) = updated-IsKeyed id _ (λ r. refl)
  step-IsKeyed (sets_skill id c) = updated-IsKeyed id _ (λ r. refl)
  step-IsKeyed (sets_phase id c) = updated-IsKeyed id _ (λ r. refl)
  step-IsKeyed (sets_interrupted id c) = updated-IsKeyed id _ (λ r. refl)
  step-IsKeyed (moves_phase id c p) = updated-IsKeyed id _ (λ r. refl)
  step-IsKeyed (advances id n) = updated-IsKeyed id _ (λ r. refl)
  step-IsKeyed (cleans_up id cutoff_ts n) = cleaned-IsKeyed id cutoff_ts n
  step-IsKeyed (deletes_ended cutoff_ts) = deleted-IsKeyed _
  step-IsKeyed (deletes id) = subst IsKeyed (sym (return-keeps _ _ db)) (deleted-IsKeyed _)
