-- ===== src/Hitl/Types.antt =====
-- avs-hitl/src/types.rs and avs-hitl/src/error.rs. A `DateTime` is a number of seconds.
use agentverse.Base.{ℕ, String, Option, none}
use agentverse.Core.Json.{Json}
use agentverse.Core.Strategy.{ApprovalId}

pub data InterruptKind : Type 0 where
  tool_approval : (tool_name : String) (args : Json) → InterruptKind
  phase_gate : (from_skill to_skill deliverable : String) → InterruptKind
  skill_checkpoint : (checkpoint_name : String) (payload : Json) → InterruptKind

pub record ApprovalRequest : Type 0 where
  pub id : ApprovalId
  pub session_id : ℕ
  pub kind : InterruptKind
  pub expires_at : Option ℕ

-- `ApprovalRequest::new`, with the identifier that `Uuid::new_v4` makes
abbrev pub new_request : ApprovalId → ℕ → InterruptKind → ApprovalRequest
new_request uuid session_id kind = record {
  id = uuid;
  session_id = session_id;
  kind = kind;
  expires_at = none;
}

pub data ApprovalDecision : Type 0 where
  approved : ApprovalDecision
  rejected : (reason : String) → ApprovalDecision
  modified : (new_args : Json) → ApprovalDecision

pub data ApprovalStatus : Type 0 where
  pending : ApprovalStatus
  resolved : ApprovalDecision → ApprovalStatus
  expired : ApprovalStatus

pub data HitlError : Type 0 where
  not_found already_resolved : ApprovalId → HitlError
  database : String → HitlError
