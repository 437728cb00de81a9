-- ===== src/Tools/Registry.antt =====
-- `ToolRegistry` of avs-tools/src/registry.rs: the map of tools and the search index beside it, each
-- behind its own lock. A tool is any implementation of `ErasedTool`.
pub mod Laws
use agentverse.Base.{
  ℕ, String, ◌<>◌, Bool, true, false, ◌&&◌, ◌==◌, string_eq, if◌then◌else◌, length, Option, none,
  some, List, [], ◌∷◌, Result, ok, err, ◌>>=◌,
}
use agentverse.Base.Map.{Map, get, insert, keys, contains_key}
use agentverse.Core.Json.{Json, index, as_str}
use agentverse.Core.Tool.{ToolResult}
use agentverse.Core.Model.{ToolDefinition}
use agentverse.Tools.Index
use agentverse.Tools.Index.{Bm25Index}

-- What running a tool comes to: `execute_raw` returns, or it panics.
pub data Run : Type 0 where
  finished : ToolResult → Run
  panicked : Run

pub record ErasedTool : Type 0 where
  pub name : String
  pub description : String
  pub schema : Json
  pub execute_raw : Json → Run

pub data ExecutionMode : Type 0 where
  inline background : ExecutionMode

pub record ToolOptions : Type 0 where
  pub category : Option String
  pub execution_mode : ExecutionMode

abbrev pub default_options : ToolOptions
default_options = record { category = none; execution_mode = inline }

pub record ToolEntry : Type 0 where
  pub tool : ErasedTool
  pub options : ToolOptions

pub record ToolRegistry : Type 0 where
  pub tools : Map String ToolEntry
  pub index : Bm25Index

abbrev pub spawn_subagent_tool_name : String
spawn_subagent_tool_name = "spawn_subagent"

abbrev empty : ToolRegistry
empty = record { tools = []; index = Index.new }

-- `format!("{} {}", tool.name(), tool.description())`
abbrev pub search_text : ErasedTool → String
search_text tool = tool.name <> (" " <> tool.description)

unfoldable pub has_tool : String → ToolRegistry → Bool
has_tool name r = contains_key name r.tools

unfoldable pub len : ToolRegistry → ℕ
len r = length r.tools

unfoldable pub tool_names : ToolRegistry → List String
tool_names r = keys r.tools

module _ (tokenize : String → List String) where
  -- an entry under a name, and its document
  put : String → ToolEntry → ToolRegistry → ToolRegistry
  put name entry r = record {
    tools = insert name entry r.tools;
    index = Index.add tokenize name (search_text entry.tool) r.index;
  }

  unfoldable pub register_with_options : ErasedTool → ToolOptions → ToolRegistry → ToolRegistry
  unfolding put
  register_with_options tool opts = put tool.name (record { tool = tool; options = opts })

  unfoldable pub register : ErasedTool → ToolRegistry → ToolRegistry
  unfolding register_with_options
  register tool = register_with_options tool default_options

  unfoldable pub register_erased : ErasedTool → ToolOptions → ToolRegistry → ToolRegistry
  unfolding put
  register_erased tool opts = put tool.name (record { tool = tool; options = opts })

  unfoldable pub register_if_absent : ErasedTool → ToolRegistry → Bool × ToolRegistry
  unfolding put has_tool
  register_if_absent tool r =
      if has_tool tool.name r
      then (false, r)
      else (true, put tool.name (record { tool = tool; options = default_options }) r)

  -- `find_tools` is registered first
  unfoldable pub new : ErasedTool → ToolRegistry
  unfolding register
  new find_tools = register find_tools empty

  has_category : String → Option String → Bool
  has_category category none = false
  has_category category (some c) = c == category

  filter_entries : String → Map String ToolEntry → ToolRegistry → ToolRegistry
  unfolding put has_category
  filter_entries category [] r = r
  filter_entries category ((name, entry) ∷ m) r =
      filter_entries category m
        (if has_category category entry.options.category then put name entry r else r)

  unfoldable pub filter_category : String → ToolRegistry → ToolRegistry
  unfolding filter_entries
  filter_category category r = filter_entries category r.tools empty

  put_found : String → Option ToolEntry → ToolRegistry → ToolRegistry
  unfolding put
  put_found name none r = r
  put_found name (some entry) r = put name entry r

  copy_loop : ToolRegistry → List String → Bool → ToolRegistry → ToolRegistry
  unfolding put_found
  copy_loop source [] exclude_subagent_spawner r = r
  copy_loop source (name ∷ names) exclude_subagent_spawner r =
      copy_loop source names exclude_subagent_spawner (
        if exclude_subagent_spawner && name == spawn_subagent_tool_name
        then r
        else put_found name (get name source.tools) r)

  unfoldable pub copy_named_tools : List String → Bool → ToolRegistry → ToolRegistry
  unfolding copy_loop
  copy_named_tools names exclude_subagent_spawner source =
      copy_loop source names exclude_subagent_spawner empty

  unfoldable pub restricted_to_names : List String → ToolRegistry → ToolRegistry
  unfolding copy_named_tools
  restricted_to_names names = copy_named_tools names false

  unfoldable pub filter_by_names : List String → ToolRegistry → ToolRegistry
  unfolding copy_named_tools
  filter_by_names names = copy_named_tools names true

str_or_default : Option String → String
str_or_default none = ""
str_or_default (some s) = s

module _ {E : Type 0} (to_strict_schema : Json → Result Json E) where
  definition_of : ErasedTool → Result ToolDefinition E
  unfolding str_or_default index
  definition_of tool = do
    parameters ← to_strict_schema (index tool.schema "input_schema")
    ok (record {
      name = str_or_default (as_str (index tool.schema "name"));
      description = str_or_default (as_str (index tool.schema "description"));
      parameters = parameters;
    })

  definition_found :
      Option ToolEntry → Result (List ToolDefinition) E → Result (List ToolDefinition) E
  unfolding definition_of
  definition_found none rest = rest
  definition_found (some entry) rest = do d ← definition_of entry.tool; ds ← rest; ok (d ∷ ds)

  -- the first error in the order of the names is returned
  unfoldable pub tool_definitions_for : ToolRegistry → List String → Result (List ToolDefinition) E
  unfolding definition_found
  tool_definitions_for r [] = ok []
  tool_definitions_for r (name ∷ names) =
      definition_found (get name r.tools) (tool_definitions_for r names)
