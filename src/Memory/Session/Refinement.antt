-- ===== src/Memory/Session/Refinement.antt =====
-- The store in SQL does what the contract promises, session by session, and keeps its keys.
use agentverse.Base.{
  ℕ, Bool, true, ◌&&◌, ltb, leb, min, ◌==◌, string_eq, nat_eq, if◌then◌else◌, ◌≡◌, refl, ap, sym,
  ◌∙◌, inl, inr, none, some, Option-cases, arith,
}
use agentverse.Core.Message.{Message}
use agentverse.Memory.Session.Sql.{
  SessionRow, Db, Engine, find_session, execute, insert_session, delete_sessions,
}
use agentverse.Memory.Session.Store.{
  Codec, update, update_status, set_skill_context, set_phase_opening_context, set_interrupted_state,
  apply_phase_transition, create, create_with_skill_context, append_message, append_turn,
}
use agentverse.Memory.Session.Maintenance.{
  advance_watermark, cleanup_expired_messages, delete_ended_sessions_before, delete_session,
}
use agentverse.Memory.Session.Keys.{IsUnique, IsLinked, find-id}
use agentverse.Memory.Session.Keyed.{IsKeyed}
use agentverse.Memory.Session.Runs.{
  Works, update-Tables, insert_session-Tables, insert_session-taken, delete_sessions-Tables,
  append_message-missing, append_message-found, append_turn-missing, append_turn-found,
  cleanup-missing, cleanup-found, return-keeps,
}
use agentverse.Memory.Session.Contract.{
  view, Op, creates, creates_with_skill, posts, takes_turn, sets_status, sets_skill, sets_phase,
  sets_interrupted, moves_phase, advances, cleans_up, deletes_ended, deletes, step, promised,
  on_view, change_row, added, has_ended,
}
use agentverse.Memory.Session.Views.{
  view_at, view-Tables, update-view, delete-view, insert-view, cleanup-view, missing-view,
  post-view, turn-view,
}

module _ (engine : Engine) (works : Works engine) (codec : Codec) (now j : ℕ) (db : Db) where
  updated :
      (id : ℕ) (f : SessionRow → SessionRow)
      → ((r : SessionRow) → (f r).id ≡ r.id)
      → view j (update engine id f db).1 ≡ on_view (id == j) (change_row f) (view j db)
  unfolding view_at
  updated id f keeps =
      view-Tables j (update engine id f db).1 _ _ (update-Tables engine works id f db)
      ∙ update-view j id f db.sessions db.messages keeps

  posted :
      (id : ℕ) (m : Message)
      → view j (step engine codec now (posts id m) db)
        ≡ promised codec now j (posts id m) (view j db)
  unfolding step promised view_at
  posted id m = elim (Option-cases (find_session id db.sessions)) [
    | inl e ↦
        view-Tables j (append_message engine codec id m now db).1 _ _
          (append_message-missing engine works codec id m now db e)
        ∙ sym (missing-view j id _ db.sessions db.messages e)
    | inr (s, e) ↦
        ap (λ x. view j x.1) (append_message-found engine works codec id m now s db e)
        ∙ post-view codec now j id db.sessions db.messages m
  ]

  turned :
      (id : ℕ) (u a : Message)
      → view j (step engine codec now (takes_turn id u a) db)
        ≡ promised codec now j (takes_turn id u a) (view j db)
  unfolding step promised view_at
  turned id u a = elim (Option-cases (find_session id db.sessions)) [
    | inl e ↦
        view-Tables j (append_turn engine codec id u a now db).1 _ _
          (append_turn-missing engine works codec id u a now db e)
        ∙ sym (missing-view j id _ db.sessions db.messages e)
    | inr (s, e) ↦
        ap (λ x. view j x.1) (append_turn-found engine works codec id u a now s db e)
        ∙ turn-view codec now j id db.sessions db.messages u a
  ]

  inserted :
      (row : SessionRow)
      → IsLinked db.sessions db.messages
      → view j (execute engine (insert_session row) db).1 ≡ added (row.id == j) row (view j db)
  unfolding view_at added
  inserted row linked = elim (Option-cases (find_session row.id db.sessions)) [
    | inl e ↦
        view-Tables j (execute engine (insert_session row) db).1 _ _
          (insert_session-Tables engine works row db e)
        ∙ insert-view j row db.sessions db.messages linked e
    | inr (s, e) ↦
        view-Tables j (execute engine (insert_session row) db).1 _ _
          (insert_session-taken engine works row s db e)
        ∙ ground (arith, e)
  ]

  deleted :
      (p : SessionRow → Bool)
      → IsUnique db.sessions
      → view j (execute engine (delete_sessions p) db).1
        ≡ on_view true (λ v. if p v.row then none else some v) (view j db)
  unfolding view_at
  deleted p u =
      view-Tables j (execute engine (delete_sessions p) db).1 _ _
        (delete_sessions-Tables engine works p db)
      ∙ delete-view j p db.sessions db.messages u

  cleaned :
      (id cutoff_ts watermark : ℕ)
      → view j (step engine codec now (cleans_up id cutoff_ts watermark) db)
        ≡ promised codec now j (cleans_up id cutoff_ts watermark) (view j db)
  unfolding step promised view_at on_view
  cleaned id cutoff_ts watermark = elim (Option-cases (find_session id db.sessions)) [
    | inl e ↦
        view-Tables j (cleanup_expired_messages engine id cutoff_ts watermark db).1 _ _
          (cleanup-missing engine works id cutoff_ts watermark db e)
        ∙ sym (missing-view j id _ db.sessions db.messages e)
    | inr (s, e) ↦
        view-Tables j (cleanup_expired_messages engine id cutoff_ts watermark db).1 _ _
          (cleanup-found engine works id cutoff_ts watermark s db e)
        ∙ ground (
          arith,
          e,
          cleanup-view j id
              (λ m.
                ltb m.created_at cutoff_ts
                && leb m.sequence_num (min watermark s.consolidation_watermark))
              db.sessions db.messages,
        )
  ]

  named :
      (id : ℕ)
      → on_view true (λ v. if v.row.id == id then none else some v) (view j db)
        ≡ on_view (id == j) (λ v. none) (view j db)
  unfolding on_view
  named id = elim (Option-cases (find_session j db.sessions)) [
    | inl e ↦ ground (arith, e)
    | inr (s, e) ↦ ground (arith, e, find-id j db.sessions s e)
  ]

  -- Each operation does to each session what the contract promises, where the keys hold.
  pub step-promised :
      (op : Op)
      → IsKeyed db
      → view j (step engine codec now op db) ≡ promised codec now j op (view j db)
  unfolding step promised create create_with_skill_context update_status set_skill_context
      set_phase_opening_context set_interrupted_state apply_phase_transition advance_watermark
      delete_ended_sessions_before delete_session
  step-promised (creates id user_id) keyed = ap (view j) (return-keeps _ _ db) ∙ inserted _ keyed.1
  step-promised (creates_with_skill id user_id c) keyed =
      ap (view j) (return-keeps _ _ db) ∙ inserted _ keyed.1
  step-promised (posts id m) keyed = posted id m
  step-promised (takes_turn id u a) keyed = turned id u a
  step-promised (sets_status id s) keyed = updated id _ (λ r. refl)
  step-promised (sets_skill id c) keyed = updated id _ (λ r. refl)
  step-promised (sets_phase id c) keyed = updated id _ (λ r. refl)
  step-promised (sets_interrupted id c) keyed = updated id _ (λ r. refl)
  step-promised (moves_phase id c p) keyed = updated id _ (λ r. refl)
  step-promised (advances id n) keyed = updated id _ (λ r. refl)
  step-promised (cleans_up id cutoff_ts n) keyed = cleaned id cutoff_ts n
  step-promised (deletes_ended cutoff_ts) keyed = deleted (has_ended cutoff_ts) keyed.0
  step-promised (deletes id) keyed =
      ap (view j) (return-keeps _ _ db) ∙ deleted (λ r. r.id == id) keyed.0 ∙ named id
