-- ===== src/Core/Tool.antt =====
-- avs-core/src/tool.rs: tool calls and their results.
use agentverse.Base.{String, Result}
use agentverse.Core.Json.{Json}
use agentverse.Core.Error.{ToolError}

abbrev pub ToolResult : Type 0
ToolResult = Result Json ToolError

pub record ToolCall : Type 0 where
  pub id : String
  pub name : String
  pub args : Json

pub record ToolCallResult : Type 0 where
  pub id : String
  pub name : String
  pub result : ToolResult
