-- ===== src/Examples/Schemas.antt =====
-- The theorem on strict schemas at a concrete schema: an optional untyped field behind a definition.
use agentverse.Base.{true, ◌≡◌, refl, ok, string_eq}
use agentverse.Core.Json.{Json, str, array, object, nil, cons, end, field}
use agentverse.Tools.Schema.{to_strict_schema}
use agentverse.Tools.Schema.Strict.{nodes_enveloped}
use agentverse.Tools.Schema.Definitions.{definitions_enveloped, to_strict_schema-enveloped}

abbrev pair : Json
pair = object (field "type" (str "object") end)

abbrev schema : Json
schema = object (
    field "definitions" (object (field "Pair" pair end)) (
      field "type" (str "object") (
        field "properties" (object (field "note" (object end) (field "pair" pair end)))
          (field "required" (array (cons (str "pair") nil)) end))))

abbrev strict : Json
strict = elim (to_strict_schema (λ n. "0") schema) [ ok k ↦ k | _ ↦ schema ]

to_strict_schema-enveloped_example :
    (nodes_enveloped strict ≡ true) × (definitions_enveloped strict ≡ true)
unfolding to_strict_schema string_eq
to_strict_schema-enveloped_example = to_strict_schema-enveloped (λ n. "0") schema strict refl
