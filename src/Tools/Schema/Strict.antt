-- ===== src/Tools/Schema/Strict.antt =====
-- The envelope of a node: what the rewriting means to give to objects, as a test that does not speak of
-- how schemas are rewritten. It goes where the source goes, and asks less than a provider may: it does
-- not look into an `items` that is an array, and of a node whose `type` is a list it asks nothing but
-- where the node has properties.
use agentverse.Base.{
  String, Bool, true, false, not, ◌&&◌, ◌==◌, string_eq, if◌then◌else◌, ◌≡◌, refl, Option, some,
  arith,
}
use agentverse.Core.Json.{
  Json, bool, str, array, object, Items, nil, cons, Fields, end, field, get_field, set_field,
}
use agentverse.Tools.Schema.{keys_of, object_typed}

is_false : Option Json → Bool
is_false (some (bool b)) = not b
is_false _ = false

-- the names of an array are the keys of an object, in their order
unfoldable pub same_names : Items → Fields → Bool
same_names nil end = true
same_names (cons (str s) js) (field k v fs) = s == k && same_names js fs
same_names _ _ = false

names_all : Option Json → Fields → Bool
unfolding same_names
names_all (some (array js)) properties = same_names js properties
names_all _ properties = false

-- a node with properties is closed and requires each of them; one whose type is "object" has properties
unfoldable pub enveloped : Option Json → Fields → Bool
unfolding is_false names_all object_typed get_field
enveloped (some (object properties)) fs =
    is_false (get_field "additionalProperties" fs) && names_all (get_field "required" fs) properties
enveloped _ fs = not (object_typed fs)

unfoldable pub is_enveloped : Fields → Bool
unfolding enveloped get_field
is_enveloped fs = enveloped (get_field "properties" fs) fs

unfoldable mutual
  unfolding is_enveloped

  -- every node that is reached through variants, an `items` that is one schema, and properties is
  -- enveloped
  pub nodes_enveloped : Json → Bool
  nodes_enveloped (object fs) =
      variants_enveloped_at "oneOf" fs
      && (variants_enveloped_at "anyOf" fs
          && (variants_enveloped_at "allOf" fs
              && (items_enveloped_at fs && (properties_enveloped_at fs && is_enveloped fs))))
  nodes_enveloped _ = true

  pub variants_enveloped_at : String → Fields → Bool
  variants_enveloped_at c end = true
  variants_enveloped_at c (field k v fs) = elim (k == c) [
    | true ↦ variants_enveloped v
    | false ↦ variants_enveloped_at c fs
  ]

  pub variants_enveloped : Json → Bool
  variants_enveloped (array js) = all_enveloped js
  variants_enveloped _ = true

  pub all_enveloped : Items → Bool
  all_enveloped nil = true
  all_enveloped (cons j js) = nodes_enveloped j && all_enveloped js

  pub items_enveloped_at : Fields → Bool
  items_enveloped_at end = true
  items_enveloped_at (field k v fs) = elim (k == "items") [
    | true ↦ nodes_enveloped v
    | false ↦ items_enveloped_at fs
  ]

  pub properties_enveloped_at : Fields → Bool
  properties_enveloped_at end = true
  properties_enveloped_at (field k v fs) = elim (k == "properties") [
    | true ↦ properties_enveloped v
    | false ↦ properties_enveloped_at fs
  ]

  pub properties_enveloped : Json → Bool
  properties_enveloped (object fs) = fields_enveloped fs
  properties_enveloped _ = true

  pub fields_enveloped : Fields → Bool
  fields_enveloped end = true
  fields_enveloped (field k v fs) = nodes_enveloped v && fields_enveloped fs

-- where the test looks, a rewritten field is what it finds
module _ (k : String) (v : Json) where
  pub variants_enveloped-set_field :
      (c : String) (fs : Fields)
      → variants_enveloped_at c (set_field k v fs)
        ≡ (if k == c then variants_enveloped v else variants_enveloped_at c fs)
  unfolding set_field nodes_enveloped
  variants_enveloped-set_field c end = ground arith
  variants_enveloped-set_field c (field j w fs) = ground (arith, variants_enveloped-set_field c fs)

  pub items_enveloped-set_field :
      (fs : Fields)
      → items_enveloped_at (set_field k v fs)
        ≡ (if k == "items" then nodes_enveloped v else items_enveloped_at fs)
  unfolding set_field nodes_enveloped
  items_enveloped-set_field end = ground arith
  items_enveloped-set_field (field j w fs) = ground (arith, items_enveloped-set_field fs)

  pub properties_enveloped-set_field :
      (fs : Fields)
      → properties_enveloped_at (set_field k v fs)
        ≡ (if k == "properties" then properties_enveloped v else properties_enveloped_at fs)
  unfolding set_field nodes_enveloped
  properties_enveloped-set_field end = ground arith
  properties_enveloped-set_field (field j w fs) = ground (arith, properties_enveloped-set_field fs)

pub same_names-keys_of : (fs : Fields) → same_names (keys_of fs) fs ≡ true
unfolding same_names keys_of
same_names-keys_of end = refl
same_names-keys_of (field k v fs) = ground (arith, same_names-keys_of fs)
