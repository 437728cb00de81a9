-- ===== src/Agent/Sessions.antt =====
-- avs-agent/src/agent/sessions.rs: what an agent lets its caller do with sessions, over the SQL store
-- (layer 2) and the working memory (layer 1).
pub mod Laws
use agentverse.Base.{
  ℕ, String, ◌==◌, string_eq, if◌then◌else◌, Option, none, some, List, [], ◌∷◌, Result, ok, err,
}
use agentverse.Core.Message.{Message}
use agentverse.Memory.Session.Types.{Session, SessionMemoryError, not_found}
use agentverse.Memory.Session.Sql.{Db, Engine, Query, return, fail, ◌>>=◌}
use agentverse.Memory.Session.Store.{Codec}
use agentverse.Memory.Session.Manager as Manager
use agentverse.Memory.Working.{CacheMemory, evict}
use agentverse.Agent.Types.{AgentError, session}

pub record Layers : Type 0 where
  pub layer_1 : CacheMemory
  pub layer_2 : Db

-- `?` on a result of the store
unfoldable pub then_in :
    {A B : Type 0}
    → Layers
    → Result A SessionMemoryError × Db
    → (A → Layers → Result B AgentError × Layers)
    → Result B AgentError × Layers
then_in w (ok a, db) next = next a (record w { layer_2 = db })
then_in w (err e, db) next = (err (session e), record w { layer_2 = db })

abbrev pub done : {A : Type 0} → A → Layers → Result A AgentError × Layers
done a w = (ok a, w)

owned_by : String → ℕ → Option Session → Query (Unit {0})
unfolding return fail
owned_by user_id session_id none = fail (not_found session_id)
owned_by user_id session_id (some s) =
    if s.user_id == user_id then return tt else fail (not_found session_id)

user_of : Option Session → Option String
user_of none = none
user_of (some s) = some s.user_id

-- evicts the turns of a session
unfoldable pub evicted : String → ℕ → Layers → Layers
unfolding evict
evicted user_id session_id w = record w {
  layer_1 = evict (record { user_id = user_id; session_id = session_id }) w.layer_1;
}

module _ (engine : Engine) (codec : Codec) where
  unfoldable pub assert_owner : String → ℕ → Query (Unit {0})
  unfolding owned_by Manager.get_session
  assert_owner user_id session_id =
      Manager.get_session engine codec session_id >>= owned_by user_id session_id

  unfoldable pub create_session : ℕ → String → ℕ → Layers → Result ℕ AgentError × Layers
  unfolding then_in Manager.create_session
  create_session id user_id now w =
      then_in w (Manager.create_session engine codec id user_id now w.layer_2) done

  unfoldable pub get_session : String → ℕ → Layers → Result (Option Session) AgentError × Layers
  unfolding then_in assert_owner Manager.get_session
  get_session user_id session_id w =
      then_in w (assert_owner user_id session_id w.layer_2)
        (λ _ t. then_in t (Manager.get_session engine codec session_id t.layer_2) done)

  unfoldable pub session_owner : ℕ → Layers → Result (Option String) AgentError × Layers
  unfolding then_in Manager.get_session user_of
  session_owner session_id w =
      then_in w (Manager.get_session engine codec session_id w.layer_2) (λ s t. done (user_of s) t)

  unfoldable pub end_session : ℕ → String → ℕ → Layers → Result (Unit {0}) AgentError × Layers
  unfolding then_in assert_owner Manager.end_session evicted
  end_session now user_id session_id w =
      then_in w (assert_owner user_id session_id w.layer_2) (λ _ t.
        then_in t (Manager.end_session engine codec session_id now t.layer_2)
          (λ _ u. done tt (evicted user_id session_id u)))

  unfoldable pub list_sessions : String → Layers → Result (List Session) AgentError × Layers
  unfolding then_in Manager.list_sessions
  list_sessions user_id w = then_in w (Manager.list_sessions engine codec user_id w.layer_2) done

  -- the loop of `delete_all_user_data`
  unfoldable pub delete_each :
      String → List Session → Layers → Result (Unit {0}) AgentError × Layers
  unfolding then_in Manager.delete_session evicted
  delete_each user_id [] w = done tt w
  delete_each user_id (s ∷ rest) w =
      then_in w (Manager.delete_session engine codec s.id w.layer_2)
        (λ _ t. delete_each user_id rest (evicted user_id s.id t))

  unfoldable pub delete_all_user_data : String → Layers → Result (Unit {0}) AgentError × Layers
  unfolding then_in Manager.list_sessions delete_each
  delete_all_user_data user_id w =
      then_in w (Manager.list_sessions engine codec user_id w.layer_2) (delete_each user_id)

  unfoldable pub load_messages : String → ℕ → Layers → Result (List Message) AgentError × Layers
  unfolding then_in assert_owner Manager.load_messages
  load_messages user_id session_id w =
      then_in w (assert_owner user_id session_id w.layer_2)
        (λ _ t. then_in t (Manager.load_messages engine codec session_id t.layer_2) done)
