-- ===== src/Core/Model.antt =====
-- avs-core/src/model.rs: what goes to a model provider and what comes back.
use agentverse.Base.{ℕ, String, Option, List}
use agentverse.Core.Json.{Json}
use agentverse.Core.Message.{ContentBlock, Message, content_as_text}

-- each count is a u32
pub record UsageStats : Type 0 where
  pub input_tokens : ℕ
  pub output_tokens : ℕ
  pub cache_write_tokens : ℕ
  pub cache_read_tokens : ℕ

pub record ToolDefinition : Type 0 where
  pub name : String
  pub description : String
  pub parameters : Json

pub record GenerateRequest : Type 0 where
  pub system : Option String
  pub messages : List Message
  pub tools : Option (List ToolDefinition)
  pub response_format : Option Json

pub record GenerateResponse : Type 0 where
  pub content : List ContentBlock
  pub usage : UsageStats

-- `GenerateResponse::as_text`
abbrev pub response_as_text : GenerateResponse → String
response_as_text r = content_as_text r.content
