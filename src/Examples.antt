-- ===== src/Examples.antt =====
-- Concrete inputs: a provider, a network, a skill, tools, and a model that follows a script.
mod Providers
mod Approvals
mod Turns
mod Stores
pub mod Sessions
mod Tables
mod Schemas
mod Plans
mod Subagents
mod Phases
use agentverse.Base.{
  ℕ, zero, suc, String, Bool, true, false, Option, none, some, List, [], ◌∷◌, Result, ok, err,
  Reordered, nil, cons, swap,
}
use agentverse.Core.Json.{Json, null}
use agentverse.Core.Error.{AgentError}
use agentverse.Core.Message.{Message, ContentBlock, text, tool_use, user, text_message}
use agentverse.Core.Model.{GenerateRequest, GenerateResponse, UsageStats}
use agentverse.Core.Tool.{ToolCall}
use agentverse.Provider.Breaker
use agentverse.Provider.Registry.{ModelProvider}
use agentverse.Provider.Connection.{World, Endpoint}
use agentverse.Provider.Connection.Generate.{Network, replied}
use agentverse.Skill.Types.{Skill}
use agentverse.Hitl.Policy.{HitlPolicy, from_system_skills}
use agentverse.Hitl.Context
use agentverse.Hitl.Context.{HitlContext}
use agentverse.Hitl.Queue
use agentverse.Hitl.Queue.{InMemoryQueue}
use agentverse.Tools.Registry
use agentverse.Tools.Registry.{ErasedTool, ToolRegistry, finished}
use agentverse.Tools.Execute.{Joined}
use agentverse.React.Strategy.{Skeleton, State}

abbrev pub response : List ContentBlock → GenerateResponse
response content = record {
  content = content;
  usage = record {
    input_tokens = 1;
    output_tokens = 1;
    cache_write_tokens = 0;
    cache_read_tokens = 0;
  };
}

abbrev pub provider : ModelProvider
provider = record {
  name = "openai";
  build_request = λ model request. ok null;
  parse_response = λ body. ok (response (text body ∷ []));
  endpoint_path = λ model. "/v1/chat/completions";
}

abbrev pub primary : Endpoint
primary = record {
  api_base = "https://api.openai.com";
  api_key = "key";
  model_name = "m";
  provider = provider;
  settings = [];
  circuit_breaker = 0;
  max_retries = 2;
  retry_delay_ms = 100;
}

abbrev pub world : World
world = record {
  breakers = λ i. Breaker.new 3 30;
  next_breaker = 1;
  now = 0;
  requests = 0;
  effects = [];
}

-- a network that answers every request with one status
abbrev pub answering : ℕ → Network
answering status = record {
  reply = λ n. replied 5 status none "hello";
  show_status = λ n. "status";
}

abbrev pub request : GenerateRequest
request = record {
  system = none;
  messages = text_message user "hi" ∷ [];
  tools = none;
  response_format = none;
}

abbrev pub deploy : Skill
deploy = record {
  id = "deploy";
  version = "1";
  description = "";
  tags = [];
  tools = "release" ∷ [];
  activation_domains = [];
  instructions = "";
  documents = [];
  max_iterations = none;
  hitl_tools = "release" ∷ [];
  phase_gate = false;
  checkpoints = [];
}

abbrev pub policy : HitlPolicy
policy = from_system_skills (deploy ∷ [])

abbrev pub context : HitlContext
context = Context.new 7 (some "deploy") policy

abbrev pub words : String → List String
words s = s ∷ []

abbrev pub echo : String → ErasedTool
echo name = record {
  name = name;
  description = "answers its arguments";
  schema = null;
  execute_raw = λ args. finished (ok args);
}

abbrev pub tools : ToolRegistry
tools = Registry.register words (echo "release") (Registry.new words (echo "find_tools"))

abbrev pub call : String → String → ToolCall
call id name = record { id = id; name = name; args = null }

-- the first two tasks end in the other order
abbrev pub second_first : List Joined → List Joined
second_first [] = []
second_first (j ∷ []) = j ∷ []
second_first (j ∷ k ∷ js) = k ∷ j ∷ js

pub second_first-Reordered : (js : List Joined) → Reordered js (second_first js)
second_first-Reordered [] = nil
second_first-Reordered (j ∷ []) = cons j nil
second_first-Reordered (j ∷ k ∷ js) = swap j k js

-- the model searches first, then wants to answer, then releases
abbrev script : ℕ → List ContentBlock
script zero = tool_use "c1" "find_tools" null ∷ []
script (suc zero) = text "done" ∷ []
script (suc (suc n)) = text "releasing" ∷ tool_use "c2" "release" null ∷ []

abbrev pub skeleton : Skeleton ℕ
skeleton = record {
  invoke_inner = λ messages definitions n. (ok (response (script n)), suc n);
  tools = tools;
  max_iterations = 5;
  to_strict_schema = λ schema. ok schema;
  completion = second_first;
  is_blank = λ t. false;
  has_react_template = false;
  preamble = none;
  is_match = λ pattern t. false;
  show_value = λ v. "value";
  show_error = λ e. "error";
  show_count = λ n. "5";
}

abbrev pub start : State ℕ InMemoryQueue
start = record { world = 0; queue = Queue.new; requests = []; executed = [] }

abbrev pub names : List String
names = "find_tools" ∷ "release" ∷ []

abbrev pub messages : List Message
messages = text_message user "ship it" ∷ []
