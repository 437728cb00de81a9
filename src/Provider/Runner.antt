-- ===== src/Provider/Runner.antt =====
-- `LlmRunner` of avs-core/src/llm_runner.rs: messages become a request of the connection.
pub mod Laws
use agentverse.Base.{
  String, ◌<>◌, Bool, true, false, not, if◌then◌else◌, Option, none, some, List, [], ◌∷◌, map,
  retain, join, Result, ok, err, map_err,
}
use agentverse.Core.Json.{Json}
use agentverse.Core.Error.{AgentError, model, ModelError}
use agentverse.Core.Message.{Message, MessageRole, system, user, assistant, tool, as_text}
use agentverse.Core.Model.{ToolDefinition, GenerateRequest, GenerateResponse}
use agentverse.Provider.Connection.{World, ConnectionManager}
use agentverse.Provider.Connection.Generate.{Network, generate}

-- `matches!(msg.role, MessageRole::System)`
abbrev pub is_system : Message → Bool
is_system m = elim m.role [ system ↦ true | user ↦ false | assistant ↦ false | tool ↦ false ]

unfoldable pub system_parts : List Message → List String
system_parts [] = []
system_parts (m ∷ ms) = let rest = system_parts ms in if is_system m then as_text m ∷ rest else rest

unfoldable pub conversation : List Message → List Message
conversation [] = []
conversation (m ∷ ms) = let rest = conversation ms in if is_system m then rest else m ∷ rest

system_of : List String → Option String
unfolding join
system_of [] = none
system_of (t ∷ ts) = some (join "\n\n" (t ∷ ts))

unfoldable pub request_of :
    List Message → Option (List ToolDefinition) → Option Json → GenerateRequest
unfolding system_of system_parts conversation
request_of messages tools response_format = record {
  system = system_of (system_parts messages);
  messages = conversation messages;
  tools = tools;
  response_format = response_format;
}

module _ (net : Network) (connection : ConnectionManager) where
  answered : Result GenerateResponse ModelError × World → Result GenerateResponse AgentError × World
  answered (r, w) = (map_err model r, w)

  unfoldable pub invoke_inner :
      List Message
      → Option (List ToolDefinition)
      → Option Json
      → World
      → Result GenerateResponse AgentError × World
  unfolding answered request_of
  invoke_inner messages tools response_format w =
      answered (generate net connection (request_of messages tools response_format) w)

  unfoldable pub invoke : List Message → World → Result GenerateResponse AgentError × World
  unfolding invoke_inner
  invoke messages = invoke_inner messages none none

  unfoldable pub invoke_with_tools :
      List Message → List ToolDefinition → World → Result GenerateResponse AgentError × World
  unfolding invoke_inner
  invoke_with_tools messages tools = invoke_inner messages (some tools) none

  unfoldable pub invoke_structured :
      List Message → Json → World → Result GenerateResponse AgentError × World
  unfolding invoke_inner
  invoke_structured messages schema = invoke_inner messages none (some schema)
