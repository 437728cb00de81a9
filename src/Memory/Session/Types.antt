-- ===== src/Memory/Session/Types.antt =====
-- The data of avs-memory/src/session: types.rs and store.rs. A `Uuid` is a number, a time is in
-- seconds.
use agentverse.Base.{ℕ, String, ◌<>◌, ◌==◌, string_eq, if◌then◌else◌, List, Option, Result, ok, err}

pub data SessionStatus : Type 0 where
  active suspended completed : SessionStatus

-- `Display` of a status: what stands in the table
unfoldable pub status_str : SessionStatus → String
status_str active = "active"
status_str suspended = "interrupted"
status_str completed = "completed"

-- `FromStr` of a status
unfoldable pub parse_status : String → Result SessionStatus String
parse_status s =
    if s == "active"
    then ok active
    else if s == "interrupted"
    then ok suspended
    else if s == "completed"
    then ok completed
    else err ("unknown status: " <> s)

pub record Session : Type 0 where
  pub id : ℕ
  pub user_id : String
  pub status : SessionStatus
  pub created_at : ℕ
  pub updated_at : ℕ

-- `Session::new`, with the new identifier and the time as arguments
abbrev pub new_session : ℕ → String → ℕ → Session
new_session id user_id now = record {
  id = id;
  user_id = user_id;
  status = active;
  created_at = now;
  updated_at = now;
}

pub data SessionMemoryError : Type 0 where
  not_found : ℕ → SessionMemoryError
  database : String → SessionMemoryError

pub data InterruptedState : Type 0 where
  pending_tool_call :
      (approval_id kind_json history_json pending_calls_json : String)
      (active_tool_names : List String) (skill_context_json : Option String)
      → InterruptedState
  pending_phase_gate : (approval_id transition_json : String) → InterruptedState
  pending_checkpoint :
      (approval_id kind_json history_json : String) (active_tool_names : List String)
      (skill_context_json : Option String)
      → InterruptedState

unfoldable pub approval_id_str : InterruptedState → String
approval_id_str (pending_tool_call a k h p names c) = a
approval_id_str (pending_phase_gate a t) = a
approval_id_str (pending_checkpoint a k h names c) = a
