-- ===== src/Agent/Workers.antt =====
-- avs-agent/src/workers.rs: one tick of the worker that deletes what is past its retention. Each time
-- that a tick reads the clock is an argument, in seconds.
pub mod Laws
pub mod Consolidation
use agentverse.Base.{ℕ, ◌-◌, List, [], ◌∷◌}
use agentverse.Memory.Session.Types.{Session}
use agentverse.Memory.Session.Sql.{Engine, Query, return, ◌>>=◌}
use agentverse.Memory.Session.Maintenance.{
  get_watermark, list_sessions_needing_maintenance, cleanup_expired_messages,
  delete_ended_sessions_before,
}

pub record CleanupConfig : Type 0 where
  pub message_retention : ℕ
  pub session_retention : ℕ

module _ (engine : Engine) where
  unfoldable pub clean_session : ℕ → Session → Query (Unit {0})
  unfolding get_watermark cleanup_expired_messages return
  clean_session message_cutoff_ts s = do
    wm ← get_watermark engine s.id
    _ ← cleanup_expired_messages engine s.id message_cutoff_ts wm
    return tt

  unfoldable pub clean_each : ℕ → List Session → Query (Unit {0})
  unfolding clean_session return
  clean_each message_cutoff_ts [] = return tt
  clean_each message_cutoff_ts (s ∷ rest) =
      clean_session message_cutoff_ts s >>= λ _. clean_each message_cutoff_ts rest

  unfoldable pub tick : CleanupConfig → (session_now message_now list_now : ℕ) → Query (Unit {0})
  unfolding delete_ended_sessions_before list_sessions_needing_maintenance clean_each
  tick config session_now message_now list_now = do
    _ ← delete_ended_sessions_before engine (session_now - config.session_retention)
    sessions ← list_sessions_needing_maintenance engine list_now
    clean_each (message_now - config.message_retention) sessions
