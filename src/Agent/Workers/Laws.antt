-- ===== src/Agent/Workers/Laws.antt =====
-- What a tick of the cleanup worker spares.
use agentverse.Base.{ℕ, ◌-◌, ◌≡◌, refl, ◌∙◌, List, [], ◌∷◌, Result, ok, err, arith, Option-cases}
use agentverse.Core.Message.{Message}
use agentverse.Memory.Session.Types.{Session, SessionMemoryError}
use agentverse.Memory.Session.Sql.{
  find_session, Db, Engine, Query, return, fail, ◌>>=◌, and_run, execute,
}
use agentverse.Memory.Session.Store.{Codec}
use agentverse.Memory.Session.Maintenance.{
  get_watermark, load_messages_above_watermark, list_sessions_needing_maintenance,
  cleanup_expired_messages, delete_ended_sessions_before,
}
use agentverse.Memory.Session.Runs.{Works}
use agentverse.Memory.Session.Retention.{load_above-cleanup, load_above-Tables}
use agentverse.Agent.Workers.{CleanupConfig, clean_session, clean_each, tick}

module _ (engine : Engine) (codec : Codec) (works : Works engine) (j : ℕ) where
  abbrev unconsolidated : Db → Result (List (ℕ × Message)) SessionMemoryError
  unconsolidated db = (load_messages_above_watermark engine codec j db).0

  abbrev Spares : {A : Type 0} → Query A → Type 0
  Spares q = (db : Db) → unconsolidated (q db).1 ≡ unconsolidated db

  bind-Spares :
      {A B : Type 0} (q : Query A) (next : A → Query B)
      → Spares q
      → ((a : A) → Spares (next a))
      → Spares (q >>= next)
  unfolding ◌>>=◌ and_run
  bind-Spares {A} q next first rest db = run_on (q db) (first db)
    where
      run_on :
          (x : Result A SessionMemoryError × Db)
          → unconsolidated x.1 ≡ unconsolidated db
          → unconsolidated (and_run x next).1 ≡ unconsolidated db
      run_on (ok a, t) same = rest a t ∙ same
      run_on (err e, t) same = same

  return-Spares : {A : Type 0} (a : A) → Spares (return a)
  unfolding return
  return-Spares a db = refl

  get_watermark-Spares : (id : ℕ) → Spares (get_watermark engine id)
  unfolding get_watermark execute ◌>>=◌ and_run return fail
  get_watermark-Spares id db =
      load_above-Tables engine codec works j (get_watermark engine id db).1 db
        (ground (arith, works db.executed, Option-cases (find_session id db.sessions)))
        (ground (arith, works db.executed, Option-cases (find_session id db.sessions)))

  list-Spares : (now : ℕ) → Spares (list_sessions_needing_maintenance engine now)
  unfolding list_sessions_needing_maintenance execute ◌>>=◌ and_run return
  list-Spares now db =
      load_above-Tables engine codec works j (list_sessions_needing_maintenance engine now db).1 db
        (ground (arith, works db.executed)) (ground (arith, works db.executed))

  clean_session-Spares : (cutoff_ts : ℕ) (s : Session) → Spares (clean_session engine cutoff_ts s)
  unfolding clean_session
  clean_session-Spares cutoff_ts s =
      bind-Spares (get_watermark engine s.id) _ (get_watermark-Spares s.id) λ wm.
        bind-Spares (cleanup_expired_messages engine s.id cutoff_ts wm) _
          (λ db. load_above-cleanup engine codec s.id cutoff_ts wm j db works) λ _. return-Spares tt

  clean_each-Spares : (cutoff_ts : ℕ) (ss : List Session) → Spares (clean_each engine cutoff_ts ss)
  unfolding clean_each
  clean_each-Spares cutoff_ts [] = return-Spares tt
  clean_each-Spares cutoff_ts (s ∷ ss) =
      bind-Spares (clean_session engine cutoff_ts s) _ (clean_session-Spares cutoff_ts s)
        λ _. clean_each-Spares cutoff_ts ss

  -- the rest of a tick, behind the deletion of whole sessions
  pruned :
      (config : CleanupConfig) (message_now list_now : ℕ)
      → Spares (
          list_sessions_needing_maintenance engine list_now >>= λ sessions.
          clean_each engine (message_now - config.message_retention) sessions)
  pruned config message_now list_now =
      bind-Spares (list_sessions_needing_maintenance engine list_now) _ (list-Spares list_now)
        (clean_each-Spares (message_now - config.message_retention))

  -- A tick of the cleanup worker deletes no message whose number is above the watermark of its session,
  -- but with a whole session: what is read above the watermark of any session after the tick is what is
  -- read there after the sessions past their retention were deleted. This is a statement on numbers:
  -- where the numbers of a session began again at 1, because all its rows were pruned before, messages
  -- that never were consolidated stand at or below the watermark, and a tick may delete them. The
  -- database answers every statement.
  pub tick-spares :
      (config : CleanupConfig) (session_now message_now list_now : ℕ) (db : Db)
      → (load_messages_above_watermark engine codec j
          (tick engine config session_now message_now list_now db).1).0
        ≡ (load_messages_above_watermark engine codec j
            (delete_ended_sessions_before engine (session_now - config.session_retention) db).1).0
  unfolding tick ◌>>=◌ and_run
  tick-spares config session_now message_now list_now db =
      finished_with
        (delete_ended_sessions_before engine (session_now - config.session_retention) db)
    where
      finished_with :
          (x : Result ℕ SessionMemoryError × Db)
          → unconsolidated
              (and_run x (λ _. list_sessions_needing_maintenance engine list_now >>= λ sessions.
                clean_each engine (message_now - config.message_retention) sessions)).1
            ≡ unconsolidated x.1
      finished_with (ok n, t) = pruned config message_now list_now t
      finished_with (err e, t) = refl
