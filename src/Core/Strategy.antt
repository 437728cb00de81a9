-- ===== src/Core/Strategy.antt =====
-- avs-core/src/hitl.rs and avs-core/src/strategy.rs: an interrupt, and what a strategy returns.
-- A `Uuid` is a number: the repository only creates and compares them.
use agentverse.Base.{ℕ, String, List}
use agentverse.Core.Message.{Message}
use agentverse.Core.Tool.{ToolCall}

abbrev pub ApprovalId : Type 0
ApprovalId = ℕ

pub record HitlInterrupt : Type 0 where
  pub approval_id : ApprovalId
  pub kind_json : String
  pub history : List Message
  pub pending_calls : List ToolCall
  pub active_tool_names : List String

pub data StrategyOutcome : Type 0 where
  done : String → StrategyOutcome
  interrupted : HitlInterrupt → StrategyOutcome
