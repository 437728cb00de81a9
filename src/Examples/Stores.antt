-- ===== src/Examples/Stores.antt =====
-- The theorems on the cache, the registry and the index at concrete inputs.
use agentverse.Base.{
  ℕ, String, refl, ◌-◌, true, ◌≡◌, none, some, List, [], ◌∷◌, leb, ◌==◌, not, string_eq,
  if◌then◌else◌, arith,
}
use agentverse.Base.Map.{get, insert}
use agentverse.Core.Message.{Message, user, assistant, text_message}
use agentverse.Memory.Working
use agentverse.Memory.Working.{
  Key, key_eq, CacheMemory, Op, stores, load, store, append_turn, evict, run,
}
use agentverse.Memory.Working.Laws.{load-store}
use agentverse.Tools.Registry
use agentverse.Tools.Registry.{
  ToolRegistry, has_tool, filter_by_names, register_if_absent, copy_named_tools,
}
use agentverse.Tools.Registry.Laws.{
  get-filter_by_names, register_if_absent_lem, IsIndexed, copy_named_tools-IsIndexed,
}
use agentverse.Examples.{tools, echo, words}

abbrev key : Key
key = record { user_id = "ann"; session_id = 1 }

abbrev hi : Message
hi = text_message user "hi"

abbrev hello : Message
hello = text_message assistant "hello"

abbrev ops : List (ℕ × Op)
ops = (10, stores key (hi ∷ [])) ∷ []

abbrev cache : CacheMemory
cache = run ops (Working.new 100)

load-store_example : load key 50 (store key 20 (hello ∷ []) cache) ≡ (
    if key == key
    then (if leb (50 - 20) cache.ttl then some (hello ∷ []) else none)
    else load key 50 cache)
load-store_example = load-store ops 100 key key 20 50 (hello ∷ []) (omega arith)

-- a registry that has the tool that spawns sub-agents
abbrev parent : ToolRegistry
parent = Registry.register words (echo "spawn_subagent") tools

abbrev allowed : List String
allowed = "spawn_subagent" ∷ "release" ∷ []

parent_test : has_tool "spawn_subagent" parent ≡ true
unfolding string_eq Registry.register has_tool get insert Registry.new
parent_test = refl

get-filter_by_names_example :
    get "spawn_subagent" (filter_by_names words allowed parent).tools ≡ none
unfolding string_eq
get-filter_by_names_example = get-filter_by_names words allowed parent "spawn_subagent"

register_if_absent_lem_example :
    ((register_if_absent words (echo "deploy") tools).0 ≡ not (has_tool "deploy" tools))
    × (has_tool "deploy" (register_if_absent words (echo "deploy") tools).1 ≡ true)
    × (has_tool "release" tools ≡ true
        → get "release" (register_if_absent words (echo "deploy") tools).1.tools
          ≡ get "release" tools.tools)
register_if_absent_lem_example = register_if_absent_lem words (echo "deploy") tools "release"

copy_named_tools-IsIndexed_example :
    IsIndexed words (copy_named_tools words ("release" ∷ []) true tools)
copy_named_tools-IsIndexed_example = copy_named_tools-IsIndexed words ("release" ∷ []) true tools
