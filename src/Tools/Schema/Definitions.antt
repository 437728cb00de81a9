-- ===== src/Tools/Schema/Definitions.antt =====
-- A whole schema with its definitions, which `$ref` refers to.
use agentverse.Base.{
  ℕ, String, Bool, true, false, ◌==◌, string_eq, ◌≡◌, refl, Option, none, some, Result, ok, err,
  ◌>>=◌, arith,
}
use agentverse.Core.Json.{
  Json, null, bool, number, str, array, object, Items, Fields, end, field, get_field, set_field,
  get-set_field,
}
use agentverse.Tools.Schema.{
  StrictSchemaError, is_open, set_variants, set_items, envelope, finish, assemble, strictify_node,
  strictify_definitions, with_definitions, to_strict_schema,
}
use agentverse.Tools.Schema.Strict.{nodes_enveloped, fields_enveloped}
use agentverse.Tools.Schema.Stages.{holds}
use agentverse.Tools.Schema.Laws.{with_field-strict, node-strict, unless}

strict_under : Option Json → Bool
unfolding nodes_enveloped
strict_under (some (object defs)) = fields_enveloped defs
strict_under _ = true

-- every definition of a schema is enveloped
unfoldable pub definitions_enveloped : Json → Bool
unfolding strict_under get_field
definitions_enveloped (object fs) = strict_under (get_field "definitions" fs)
definitions_enveloped _ = true

abbrev in_object : Fields → Bool
in_object fs = definitions_enveloped (object fs)

set_field-definitions :
    (k : String) (v : Json) (fs : Fields)
    → k == "definitions" ≡ false
    → in_object fs ≡ true
    → in_object (set_field k v fs) ≡ true
unfolding definitions_enveloped
set_field-definitions k v fs n h = rw (get-set_field "definitions" k v fs, n) h

then_definitions :
    {A : Type 0} (q : Fields → Bool) (d : A → Bool) (r : Result Fields StrictSchemaError)
    (next : Fields → Result A StrictSchemaError)
    → holds q r ≡ true
    → ((g : Fields) → q g ≡ true → holds d (next g) ≡ true)
    → holds d (r >>= next) ≡ true
then_definitions q d (ok g) next h k = k g h
then_definitions q d (err e) next h k = refl

set_variants-definitions :
    (c : String) (o : Option (Result Items StrictSchemaError)) (f : Fields)
    → c == "definitions" ≡ false
    → in_object f ≡ true
    → holds in_object (set_variants c o f) ≡ true
unfolding set_variants
set_variants-definitions c none f n h = h
set_variants-definitions c (some (ok js)) f n h = set_field-definitions c (array js) f n h
set_variants-definitions c (some (err e)) f n h = refl

set_items-definitions :
    (o : Option (Result Json StrictSchemaError)) (f : Fields)
    → in_object f ≡ true
    → holds in_object (set_items o f) ≡ true
unfolding set_items string_eq
set_items-definitions none f h = h
set_items-definitions (some (ok j)) f h = set_field-definitions "items" j f refl h
set_items-definitions (some (err e)) f h = refl

envelope-definitions : (ps f : Fields) → in_object f ≡ true → in_object (envelope ps f) ≡ true
unfolding envelope string_eq
envelope-definitions ps f h = set_field-definitions "additionalProperties" _ _ refl (
    set_field-definitions "required" _ _ refl
      (set_field-definitions "properties" (object ps) f refl h))

finish-definitions :
    (o : Option (Result Fields StrictSchemaError)) (f : Fields)
    → in_object f ≡ true
    → holds definitions_enveloped (finish o f) ≡ true
unfolding finish
finish-definitions none f h = ground (arith, h, envelope-definitions end f)
finish-definitions (some (ok ps)) f h = envelope-definitions ps f h
finish-definitions (some (err e)) f h = refl

assemble-definitions :
    (one any all : Option (Result Items StrictSchemaError))
    (items : Option (Result Json StrictSchemaError))
    (properties : Option (Result Fields StrictSchemaError)) (f : Fields)
    → in_object f ≡ true
    → holds definitions_enveloped (assemble one any all items properties f) ≡ true
unfolding assemble string_eq
assemble-definitions one any all items properties f h =
    then_definitions in_object definitions_enveloped _ _
      (set_variants-definitions "oneOf" one f refl h)
      λ f1 h1.
        then_definitions in_object definitions_enveloped _ _
          (set_variants-definitions "anyOf" any f1 refl h1)
          λ f2 h2.
            then_definitions in_object definitions_enveloped _ _
              (set_variants-definitions "allOf" all f2 refl h2)
              λ f3 h3.
                then_definitions in_object definitions_enveloped _ _
                  (set_items-definitions items f3 h3) λ f4 h4. finish-definitions properties f4 h4

module _ (show : ℕ → String) where
  root-definitions :
      (f : Fields) (path : String)
      → in_object f ≡ true
      → holds definitions_enveloped (strictify_node show (object f) path) ≡ true
  unfolding strictify_node
  root-definitions f path h =
      unless definitions_enveloped (is_open f) _ _ (assemble-definitions _ _ _ _ _ f h)

  strictify_definitions-strict :
      (defs : Fields) → holds fields_enveloped (strictify_definitions show defs) ≡ true
  unfolding strictify_definitions nodes_enveloped
  strictify_definitions-strict end = refl
  strictify_definitions-strict (field k v fs) =
      with_field-strict k _ _ (node-strict show v _) (strictify_definitions-strict fs)

  put_back-definitions :
      (r : Result Fields StrictSchemaError) (fs : Fields)
      → holds fields_enveloped r ≡ true
      → holds in_object (r >>= λ strict. ok (set_field "definitions" (object strict) fs)) ≡ true
  unfolding definitions_enveloped string_eq
  put_back-definitions (ok defs) fs h =
      rw (get-set_field "definitions" "definitions" (object defs) fs) h
  put_back-definitions (err e) fs h = refl

  with_definitions-strict :
      (o : Option Json) (fs : Fields)
      → get_field "definitions" fs ≡ o
      → holds in_object (with_definitions show o fs) ≡ true
  unfolding with_definitions definitions_enveloped
  with_definitions-strict none fs e = rw e refl
  with_definitions-strict (some null) fs e = rw e refl
  with_definitions-strict (some (bool b)) fs e = rw e refl
  with_definitions-strict (some (number n)) fs e = rw e refl
  with_definitions-strict (some (str s)) fs e = rw e refl
  with_definitions-strict (some (array js)) fs e = rw e refl
  with_definitions-strict (some (object defs)) fs e =
      put_back-definitions (strictify_definitions show defs) fs (strictify_definitions-strict defs)

  to_strict-holds :
      (j : Json)
      → (holds nodes_enveloped (to_strict_schema show j) ≡ true)
        × (holds definitions_enveloped (to_strict_schema show j) ≡ true)
  unfolding to_strict_schema nodes_enveloped definitions_enveloped
  to_strict-holds null = (refl, refl)
  to_strict-holds (bool b) = (refl, refl)
  to_strict-holds (number n) = (refl, refl)
  to_strict-holds (str s) = (refl, refl)
  to_strict-holds (array js) = (refl, refl)
  to_strict-holds (object fs) =
      let ready = with_definitions-strict (get_field "definitions" fs) fs refl in
      (
        then_definitions in_object nodes_enveloped _ _ ready
            (λ f h. node-strict show (object f) "$"),
        then_definitions in_object definitions_enveloped _ _ ready
            (λ f h. root-definitions f "$" h),
      )

  -- In what `to_strict_schema` returns, every node that is reached from the root or from a definition
  -- through `oneOf`, `anyOf`, `allOf`, an `items` that is one schema, and properties has its envelope:
  -- if it has properties, it is closed and its `required` lists exactly their names, and if its `type`
  -- is the text "object", it has properties. Nothing is said of the elements of an `items` that is an
  -- array, nor of a node without properties whose `type` is a list, which may name "object".
  pub to_strict_schema-enveloped :
      (j k : Json)
      → to_strict_schema show j ≡ ok k
      → (nodes_enveloped k ≡ true) × (definitions_enveloped k ≡ true)
  to_strict_schema-enveloped j k e =
      let (strict, definitions) = to_strict-holds j in (rw e at strict, rw e at definitions)
