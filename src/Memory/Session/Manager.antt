-- ===== src/Memory/Session/Manager.antt =====
-- `SessionManager` of avs-session/src/manager.rs over the store in SQL: the names under which the agent
-- uses the store. Its `assert_owner` is modelled with the agent, over any store.
use agentverse.Base.{ℕ, String, Option, List}
use agentverse.Core.Message.{Message}
use agentverse.Memory.Session.Types.{completed, Session}
use agentverse.Memory.Session.Sql.{Engine, Query, return, ◌>>=◌}
use agentverse.Memory.Session.Store as Store
use agentverse.Memory.Session.Store.{Codec}
use agentverse.Memory.Session.Maintenance as Maintenance

module _ (engine : Engine) (codec : Codec) where
  unfoldable pub create_session : ℕ → String → ℕ → Query ℕ
  unfolding Store.create return ◌>>=◌
  create_session id user_id now = Store.create engine id user_id now >>= λ s. return s.id

  unfoldable pub get_session : ℕ → Query (Option Session)
  unfolding Store.get
  get_session = Store.get engine

  unfoldable pub end_session : ℕ → ℕ → Query (Unit {0})
  unfolding Store.update_status
  end_session id now = Store.update_status engine id completed now

  unfoldable pub delete_session : ℕ → Query (Unit {0})
  unfolding Maintenance.delete_session
  delete_session = Maintenance.delete_session engine

  unfoldable pub list_sessions : String → Query (List Session)
  unfolding Store.list_by_user
  list_sessions = Store.list_by_user engine

  unfoldable pub load_messages : ℕ → Query (List Message)
  unfolding Store.load_messages
  load_messages = Store.load_messages engine codec

  unfoldable pub append_message : ℕ → Message → ℕ → Query (Unit {0})
  unfolding Store.append_message
  append_message = Store.append_message engine codec

  unfoldable pub append_turn : ℕ → Message → Message → ℕ → Query (Unit {0})
  unfolding Store.append_turn
  append_turn = Store.append_turn engine codec

  unfoldable pub create_session_with_skill_context : ℕ → String → String → ℕ → Query ℕ
  unfolding Store.create_with_skill_context return ◌>>=◌
  create_session_with_skill_context id user_id context_json now =
      Store.create_with_skill_context engine id user_id context_json now >>= λ s. return s.id
