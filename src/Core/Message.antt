-- ===== src/Core/Message.antt =====
-- avs-core/src/memory/mod.rs: content blocks and messages.
use agentverse.Base.{String, ◌<>◌, Bool, List, [], ◌∷◌, map, join}
use agentverse.Core.Json.{Json}

pub data ContentBlock : Type 0 where
  text : String → ContentBlock
  tool_use : (id name : String) (input : Json) → ContentBlock
  tool_result : (tool_use_id content : String) (is_error : Bool) → ContentBlock

pub data MessageRole : Type 0 where
  system user assistant tool : MessageRole

pub record Message : Type 0 where
  pub role : MessageRole
  pub content : List ContentBlock

-- `Message::text`
abbrev pub text_message : MessageRole → String → Message
text_message r t = record { role = r; content = text t ∷ [] }

block_as_text : ContentBlock → String
block_as_text (text t) = t
block_as_text (tool_use id name input) = "[tool_use: " <> (name <> "]")
block_as_text (tool_result id content is_error) =
    "[tool_result " <> (id <> (": " <> (content <> "]")))

unfoldable pub content_as_text : List ContentBlock → String
unfolding block_as_text join
content_as_text content = join "\n" (map block_as_text content)

abbrev pub as_text : Message → String
as_text m = content_as_text m.content
