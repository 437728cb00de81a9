-- ===== src/Core/Error.antt =====
-- avs-core/src/error.rs
use agentverse.Base.{String}

pub data ModelError : Type 0 where
  api_error timeout invalid_response rate_limited circuit_open unknown_provider invalid_api_key :
      String → ModelError
  missing_setting : String → String → ModelError

pub data ToolError : Type 0 where
  execution not_found invalid_args : String → ToolError

pub data ConfigError : Type 0 where
  invalid missing file_error : String → ConfigError

pub data GuardrailError : Type 0 where
  prompt_injection output_filtered : String → GuardrailError

pub data AgentError : Type 0 where
  model : ModelError → AgentError
  tool : ToolError → AgentError
  config : ConfigError → AgentError
  guardrail : GuardrailError → AgentError
  memory : String → AgentError
  interrupted : String → AgentError
