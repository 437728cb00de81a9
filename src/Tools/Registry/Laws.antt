-- ===== src/Tools/Registry/Laws.antt =====
-- What the registries that are built from a registry hold, and the index beside the map.
use agentverse.Base.{
  String, Bool, true, false, not, ◌&&◌, ◌||◌, ◌==◌, string_eq, if◌then◌else◌, ◌≡◌, refl, contains,
  Option, none, some, List, [], ◌∷◌, ◌++◌, arith, Option-cases, Bool-cases, inl, inr,
}
use agentverse.Base.Map.{get, get-insert, get-nil}
use agentverse.Tools.Index
use agentverse.Tools.Registry.{
  ErasedTool, default_options, ToolEntry, ToolRegistry, spawn_subagent_tool_name, search_text,
  empty, has_tool, put, put_found, copy_loop, restricted_to_names, filter_by_names,
  copy_named_tools, register_if_absent,
}

module _ (tokenize : String → List String) where
  get-put :
      (j name : String) (e : ToolEntry) (r : ToolRegistry)
      → get j (put tokenize name e r).tools ≡ (if name == j then some e else get j r.tools)
  unfolding put
  get-put j name e r = get-insert j name e r.tools

  abbrev first : Option ToolEntry → Option ToolEntry → Option ToolEntry
  first none o = o
  first (some e) o = some e

  get-put_found :
      (name n : String) (o : Option ToolEntry) (r : ToolRegistry)
      → get name (put_found tokenize n o r).tools
        ≡ (if n == name then first o (get name r.tools) else get name r.tools)
  unfolding put_found
  get-put_found name n none r = ground arith
  get-put_found name n (some e) r = get-put name n e r

  get-copy_loop :
      (source : ToolRegistry) (names : List String) (exclude : Bool) (r : ToolRegistry)
      (name : String)
      → get name (copy_loop tokenize source names exclude r).tools ≡ (
          if contains names name && not (exclude && name == spawn_subagent_tool_name)
          then first (get name source.tools) (get name r.tools)
          else get name r.tools)
  unfolding copy_loop
  get-copy_loop source [] exclude r name = refl
  get-copy_loop source (n ∷ ns) exclude r name = elim (Option-cases (get name source.tools)) [
    | inl h ↦ ground (
      arith,
      h,
      get-copy_loop source ns exclude r name,
      get-copy_loop source ns exclude (put_found tokenize n (get n source.tools) r) name,
      get-put_found name n (get n source.tools) r,
    )
    | inr (e, h) ↦ ground (
      arith,
      h,
      get-copy_loop source ns exclude r name,
      get-copy_loop source ns exclude (put_found tokenize n (get n source.tools) r) name,
      get-put_found name n (get n source.tools) r,
    )
  ]

  -- A restricted registry holds, under each name of the list, what the registry holds there, and
  -- nothing under any other name.
  pub get-restricted_to_names :
      (names : List String) (r : ToolRegistry) (name : String)
      → get name (restricted_to_names tokenize names r).tools
        ≡ (if contains names name then get name r.tools else none)
  unfolding restricted_to_names
  get-restricted_to_names names r name =
      ground (arith, get-copy_loop r names false empty name, get-nil {V = ToolEntry} name)

  -- The registry of a sub-agent holds, under each name of the given list but that of the tool that
  -- spawns sub-agents, what its parent's registry holds under it, and nothing under any other name; so
  -- it never holds the tool that spawns sub-agents, also where the list names it and the parent has it.
  pub get-filter_by_names :
      (names : List String) (r : ToolRegistry) (name : String)
      → get name (filter_by_names tokenize names r).tools ≡ (
          if contains names name && not (name == spawn_subagent_tool_name)
          then get name r.tools
          else none)
  unfolding filter_by_names
  get-filter_by_names names r name =
      ground (arith, get-copy_loop r names true empty name, get-nil {V = ToolEntry} name)

  -- Registration where the name is absent answers whether it was, and never replaces a tool: a tool
  -- that is registered is found again, and every name has a tool afterwards that had one.
  pub register_if_absent_lem :
      (tool : ErasedTool) (r : ToolRegistry) (name : String)
      → ((register_if_absent tokenize tool r).0 ≡ not (has_tool tool.name r))
        × (has_tool tool.name (register_if_absent tokenize tool r).1 ≡ true)
        × (has_tool name r ≡ true
            → get name (register_if_absent tokenize tool r).1.tools ≡ get name r.tools)
  unfolding register_if_absent put has_tool
  register_if_absent_lem tool r name =
      let e : ToolEntry = (record { tool = tool; options = default_options }) in
      (
        ground arith,
        ground (arith, get-insert tool.name tool.name e r.tools),
        ground (arith, get-insert name tool.name e r.tools),
      )

  -- the identifiers of the documents
  abbrev pub indexed : List (String × List String) → String → Bool
  indexed [] name = false
  indexed ((id, tokens) ∷ ds) name = id == name || indexed ds name

  -- The names that the search can return are the names of the tools.
  abbrev pub IsIndexed : ToolRegistry → Type 0
  IsIndexed r = (name : String) → indexed r.index.docs name ≡ has_tool name r

  indexed-append :
      (ds : List (String × List String)) (id : String) (tokens : List String) (name : String)
      → indexed (ds ++ (id, tokens) ∷ []) name ≡ (indexed ds name || id == name)
  indexed-append [] id tokens name = ground arith
  indexed-append ((j, us) ∷ ds) id tokens name = ground (arith, indexed-append ds id tokens name)

  put-IsIndexed :
      (id : String) (e : ToolEntry) (r : ToolRegistry)
      → IsIndexed r
      → IsIndexed (put tokenize id e r)
  unfolding put has_tool Index.add
  put-IsIndexed id e r h name = ground (
    arith,
    h name,
    get-insert name id e r.tools,
    indexed-append r.index.docs id (tokenize (search_text e.tool)) name,
  )

  put_found-IsIndexed :
      (name : String) (o : Option ToolEntry) (r : ToolRegistry)
      → IsIndexed r
      → IsIndexed (put_found tokenize name o r)
  unfolding put_found
  put_found-IsIndexed name none r h = h
  put_found-IsIndexed name (some e) r h = put-IsIndexed name e r h

  copy_loop-IsIndexed :
      (source : ToolRegistry) (names : List String) (exclude : Bool) (r : ToolRegistry)
      → IsIndexed r
      → IsIndexed (copy_loop tokenize source names exclude r)
  unfolding copy_loop
  copy_loop-IsIndexed source [] exclude r h = h
  copy_loop-IsIndexed source (n ∷ ns) exclude r h =
      elim (Bool-cases (exclude && n == spawn_subagent_tool_name)) [
        | inl skipped ↦ rw (copy_loop, skipped) (copy_loop-IsIndexed source ns exclude r h)
        | inr copied ↦
            rw (copy_loop, copied)
              (copy_loop-IsIndexed source ns exclude (put_found tokenize n (get n source.tools) r)
                (put_found-IsIndexed n (get n source.tools) r h))
      ]

  -- The index of a restricted registry, with or without the tool that spawns sub-agents, holds a
  -- document under exactly the names of its own tools: a search cannot return another's.
  pub copy_named_tools-IsIndexed :
      (names : List String) (exclude : Bool) (source : ToolRegistry)
      → IsIndexed (copy_named_tools tokenize names exclude source)
  unfolding copy_named_tools has_tool get
  copy_named_tools-IsIndexed names exclude source =
      copy_loop-IsIndexed source names exclude empty (λ name. refl)
