-- ===== src/Tools/Schema.antt =====
-- avs-tools/src/strict_schema.rs: JSON schemas in the strict dialect of the providers. The recursion
-- follows the schema: a node is rewritten from the rewritten parts of its fields, taken in the order
-- of the source, so that the first error is the one that the source returns.
pub mod Strict
pub mod Stages
pub mod Laws
pub mod Definitions
use agentverse.Base.{
  ℕ, suc, String, ◌<>◌, Bool, true, false, not, ◌&&◌, ◌||◌, ◌==◌, string_eq, if◌then◌else◌, Option,
  none, some, List, [], ◌∷◌, contains, Result, ok, err, ◌>>=◌,
}
use agentverse.Core.Json.{
  Json, null, bool, str, array, object, Items, nil, cons, Fields, end, field, get_field, set_field,
  as_str,
}

pub data StrictSchemaError : Type 0 where
  open_dictionary ambiguous_optional_ref : (path : String) → StrictSchemaError

opens : Json → Bool
opens (object fs) = true
opens (bool b) = b
opens _ = false

unfoldable pub is_open : Fields → Bool
unfolding opens get_field
is_open fs = elim (get_field "additionalProperties" fs) [ none ↦ false | some v ↦ opens v ]

strings_of : Items → List String
strings_of nil = []
strings_of (cons j js) = elim (as_str j) [ none ↦ strings_of js | some s ↦ s ∷ strings_of js ]

required_of : Option Json → List String
unfolding strings_of
required_of (some (array js)) = strings_of js
required_of _ = []

unfoldable pub has_field : String → Fields → Bool
unfolding get_field
has_field k fs = elim (get_field k fs) [ none ↦ false | some v ↦ true ]

is_null_type : Option Json → Bool
is_null_type (some (str s)) = s == "null"
is_null_type _ = false

-- whether some variant has `"type": "null"`
any_null : Items → Bool
unfolding get_field is_null_type
any_null nil = false
any_null (cons (object fs) js) = is_null_type (get_field "type" fs) || any_null js
any_null (cons _ js) = any_null js

already_nullable : Option Json → Bool
unfolding any_null
already_nullable (some (array js)) = any_null js
already_nullable _ = false

unfoldable pub any_type : Json
any_type = array (
    cons (str "string") (
      cons (str "number")
        (cons (str "object") (cons (str "array") (cons (str "boolean") (cons (str "null") nil))))))

unfoldable pub ensure_nullable_or_reject : Json → String → Result Json StrictSchemaError
unfolding has_field already_nullable any_type set_field
ensure_nullable_or_reject (object fs) path =
    if has_field "type" fs
    then ok (object fs)
    else if already_nullable (get_field "anyOf" fs)
    then ok (object fs)
    else if has_field "$ref" fs || has_field "allOf" fs
    then err (ambiguous_optional_ref path)
    else ok (object (set_field "type" any_type fs))
ensure_nullable_or_reject j path = ok j

-- `existing_required.contains(&key)`, with the rewritten schema of the property
unfoldable pub demand :
    Bool → String → Result Json StrictSchemaError → Result Json StrictSchemaError
unfolding ensure_nullable_or_reject
demand is_required path (err e) = err e
demand is_required path (ok j) = if is_required then ok j else ensure_nullable_or_reject j path

unfoldable pub with_item :
    Result Json StrictSchemaError → Result Items StrictSchemaError → Result Items StrictSchemaError
with_item (err e) rest = err e
with_item (ok j) (ok js) = ok (cons j js)
with_item (ok j) (err e) = err e

unfoldable pub with_field :
    String
    → Result Json StrictSchemaError
    → Result Fields StrictSchemaError
    → Result Fields StrictSchemaError
with_field k (err e) rest = err e
with_field k (ok j) (ok fs) = ok (field k j fs)
with_field k (ok j) (err e) = err e

-- a rewritten part goes back under its key
unfoldable pub set_variants :
    String → Option (Result Items StrictSchemaError) → Fields → Result Fields StrictSchemaError
unfolding set_field
set_variants c none fs = ok fs
set_variants c (some (ok js)) fs = ok (set_field c (array js) fs)
set_variants c (some (err e)) fs = err e

unfoldable pub set_items :
    Option (Result Json StrictSchemaError) → Fields → Result Fields StrictSchemaError
unfolding set_field
set_items none fs = ok fs
set_items (some (ok j)) fs = ok (set_field "items" j fs)
set_items (some (err e)) fs = err e

-- the names of the properties, as JSON
unfoldable pub keys_of : Fields → Items
keys_of end = nil
keys_of (field k v fs) = cons (str k) (keys_of fs)

unfoldable pub envelope : Fields → Fields → Fields
unfolding keys_of set_field
envelope properties fs = set_field "additionalProperties" (bool false) (
    set_field "required" (array (keys_of properties))
      (set_field "properties" (object properties) fs))

is_object_type : Option Json → Bool
is_object_type (some (str s)) = s == "object"
is_object_type _ = false

unfoldable pub object_typed : Fields → Bool
unfolding is_object_type get_field
object_typed fs = is_object_type (get_field "type" fs)

unfoldable pub finish :
    Option (Result Fields StrictSchemaError) → Fields → Result Json StrictSchemaError
unfolding envelope object_typed
finish none fs = if object_typed fs then ok (object (envelope end fs)) else ok (object fs)
finish (some (ok properties)) fs = ok (object (envelope properties fs))
finish (some (err e)) fs = err e

unfoldable pub assemble :
    (one any all : Option (Result Items StrictSchemaError))
    → Option (Result Json StrictSchemaError)
    → Option (Result Fields StrictSchemaError)
    → Fields
    → Result Json StrictSchemaError
unfolding set_variants set_items finish
assemble one any all items properties fs = set_variants "oneOf" one fs >>= λ f1.
    set_variants "anyOf" any f1 >>= λ f2.
    set_variants "allOf" all f2 >>= λ f3. set_items items f3 >>= λ f4. finish properties f4

-- `show` is the decimal form of an index
module _ (show : ℕ → String) where
  unfoldable mutual
    unfolding is_open required_of demand with_item with_field assemble get_field

    pub strictify_node : Json → String → Result Json StrictSchemaError
    strictify_node (object fs) path = elim (is_open fs) [
      | true ↦ err (open_dictionary path)
      | false ↦
          assemble (variants_at fs "oneOf" path) (variants_at fs "anyOf" path)
            (variants_at fs "allOf" path) (items_at fs (path <> ".items"))
            (properties_at fs (required_of (get_field "required" fs)) path) fs
    ]
    strictify_node j path = ok j

    pub variants_at : Fields → String → String → Option (Result Items StrictSchemaError)
    variants_at end c path = none
    variants_at (field k v fs) c path = elim (k == c) [
      | true ↦ variants v (path <> ("." <> c))
      | false ↦ variants_at fs c path
    ]

    pub variants : Json → String → Option (Result Items StrictSchemaError)
    variants (array js) path = some (strictify_variants js path 0)
    variants _ path = none

    pub strictify_variants : Items → String → ℕ → Result Items StrictSchemaError
    strictify_variants nil path i = ok nil
    strictify_variants (cons j js) path i =
        with_item (strictify_node j (path <> ("[" <> (show i <> "]"))))
          (strictify_variants js path (suc i))

    pub items_at : Fields → String → Option (Result Json StrictSchemaError)
    items_at end path = none
    items_at (field k v fs) path = elim (k == "items") [
      | true ↦ some (strictify_node v path)
      | false ↦ items_at fs path
    ]

    pub properties_at : Fields → List String → String → Option (Result Fields StrictSchemaError)
    properties_at end required path = none
    properties_at (field k v fs) required path = elim (k == "properties") [
      | true ↦ properties v required path
      | false ↦ properties_at fs required path
    ]

    pub properties : Json → List String → String → Option (Result Fields StrictSchemaError)
    properties (object fs) required path = some (strictify_properties fs required path)
    properties _ required path = none

    pub strictify_properties : Fields → List String → String → Result Fields StrictSchemaError
    strictify_properties end required path = ok end
    strictify_properties (field k v fs) required path =
        with_field k
          (demand (contains required k) (path <> ("." <> k))
            (strictify_node v (path <> ("." <> k))))
          (strictify_properties fs required path)

  unfoldable pub strictify_definitions : Fields → Result Fields StrictSchemaError
  unfolding strictify_node with_field
  strictify_definitions end = ok end
  strictify_definitions (field k v fs) =
      with_field k (strictify_node v ("definitions." <> k)) (strictify_definitions fs)

  unfoldable pub with_definitions : Option Json → Fields → Result Fields StrictSchemaError
  unfolding strictify_definitions set_field
  with_definitions (some (object defs)) fs =
      strictify_definitions defs >>= λ strict. ok (set_field "definitions" (object strict) fs)
  with_definitions _ fs = ok fs

  unfoldable pub to_strict_schema : Json → Result Json StrictSchemaError
  unfolding with_definitions strictify_node get_field
  to_strict_schema (object fs) =
      with_definitions (get_field "definitions" fs) fs >>= λ f. strictify_node (object f) "$"
  to_strict_schema j = ok j
