-- ===== src/React/Cycle.antt =====
-- avs-react/src/cycle.rs: what a response asks for, and how the results of tools go back to the model.
-- The text of a result (`to_string`), the tests on white space and the prompt templates are
-- parameters.
pub mod Results
pub mod Execution
use agentverse.Base.{
  String, Bool, true, false, not, ◌<>◌, ◌&&◌, ◌==◌, string_eq, if◌then◌else◌, Option, none, some,
  List, [], ◌∷◌, ◌++◌, map, any, is_empty, join, Result, ok, err,
}
use agentverse.Base.Map.{Map, get, insert, remove}
use agentverse.Core.Json.{Json}
use agentverse.Core.Error.{ToolError, execution, AgentError, guardrail, GuardrailError}
use agentverse.Core.Message.{
  ContentBlock, text, tool_use, tool_result, Message, MessageRole, system, user, assistant, tool,
  text_message,
}
use agentverse.Core.Model.{GenerateResponse}
use agentverse.Core.Tool.{ToolCall, ToolCallResult, ToolResult}

pub data CycleAction : Type 0 where
  tool_calls : List ToolCall → CycleAction
  done : String → CycleAction
  error : String → CycleAction

unfoldable pub calls_of : List ContentBlock → List ToolCall
calls_of [] = []
calls_of (text t ∷ content) = calls_of content
calls_of (tool_use id name input ∷ content) =
    record { id = id; name = name; args = input } ∷ calls_of content
calls_of (tool_result id t is_error ∷ content) = calls_of content

-- `is_blank t` is `t.trim().is_empty()`
module _ (is_blank : String → Bool) where
  unfoldable pub text_parts : List ContentBlock → List String
  text_parts [] = []
  text_parts (text t ∷ content) =
      let rest = text_parts content in if is_blank t then rest else t ∷ rest
  text_parts (tool_use id name input ∷ content) = text_parts content
  text_parts (tool_result id t is_error ∷ content) = text_parts content

  unfoldable pub decide : List ToolCall → List String → CycleAction
  unfolding join
  decide (c ∷ calls) parts = tool_calls (c ∷ calls)
  decide [] (t ∷ parts) = done (join "\n" (t ∷ parts))
  decide [] [] = error "Empty response from model"

  unfoldable pub action_from_response : GenerateResponse → CycleAction
  unfolding decide calls_of text_parts
  action_from_response response = decide (calls_of response.content) (text_parts response.content)

-- `collect` into a `HashMap`: a later result of one identifier replaces an earlier one
unfoldable pub collect : List ToolCallResult → Map String ToolCallResult → Map String ToolCallResult
collect [] by_id = by_id
collect (r ∷ rs) by_id = collect rs (insert r.id r by_id)

abbrev pub lost : String → String → ToolCallResult
lost id name = record {
  id = id;
  name = name;
  result = err (execution "tool execution failed (no result returned)");
}

result_or_lost : String → String → Option ToolCallResult → ToolCallResult
result_or_lost id name none = lost id name
result_or_lost id name (some r) = r

take_results : Map String ToolCallResult → List (String × String) → List ToolCallResult
unfolding result_or_lost
take_results by_id [] = []
take_results by_id ((id, name) ∷ calls) =
    result_or_lost id name (get id by_id) ∷ take_results (remove id by_id) calls

unfoldable pub reconcile_and_order_results :
    List ToolCallResult → List (String × String) → List ToolCallResult
unfolding collect take_results
reconcile_and_order_results results calls = take_results (collect results []) calls

module _ (show_value : Json → String) (show_error : ToolError → String) where
  unfoldable pub result_block : String → ToolResult → ContentBlock
  result_block id (ok v) = tool_result id (show_value v) false
  result_block id (err e) = tool_result id (show_error e) true

  unfoldable pub results_to_tool_result_blocks : List ToolCallResult → List ContentBlock
  unfolding result_block
  results_to_tool_result_blocks [] = []
  results_to_tool_result_blocks (r ∷ rs) =
      result_block r.id r.result ∷ results_to_tool_result_blocks rs

is_system : MessageRole → Bool
is_system system = true
is_system user = false
is_system assistant = false
is_system tool = false

all_system : List Message → Bool
unfolding is_system
all_system [] = true
all_system (m ∷ ms) = is_system m.role && all_system ms

-- before the first message that is not of the system
insert_first : Message → List Message → List Message
unfolding is_system
insert_first p [] = p ∷ []
insert_first p (m ∷ ms) =
    let rest = insert_first p ms in if is_system m.role then m ∷ rest else p ∷ m ∷ ms

insert_preamble : Message → List Message → List Message
unfolding insert_first all_system
insert_preamble p ms = if all_system ms then p ∷ ms else insert_first p ms

-- The rendered preamble of a registry with a template: `none` where rendering fails.
module _ (is_blank : String → Bool) (has_react_template : Bool) (preamble : Option String) where
  with_preamble : Option String → List Message → List Message
  unfolding insert_preamble
  with_preamble none ms = ms
  with_preamble (some t) ms = if is_blank t then ms else insert_preamble (text_message user t) ms

  unfoldable pub prepare_buffer : List Message → List Message
  unfolding with_preamble
  prepare_buffer messages = if has_react_template then with_preamble preamble messages else messages
