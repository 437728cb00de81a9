-- ===== src/Tools/Schema/Laws.antt =====
-- What is rewritten is enveloped, as far as variants, an `items` of one schema, and properties reach.
use agentverse.Base.{
  ℕ, suc, String, ◌<>◌, Bool, true, false, not, ◌&&◌, ◌==◌, string_eq, if◌then◌else◌, contains, ◌≡◌,
  refl, Option, none, some, List, Result, ok, err, arith,
}
use agentverse.Core.Json.{
  Json, null, bool, number, str, array, object, Items, nil, cons, Fields, end, field, get_field,
  set_field, get-set_field,
}
use agentverse.Tools.Schema.{
  StrictSchemaError, any_type, object_typed, ensure_nullable_or_reject, demand, with_item,
  with_field, is_open, strictify_node, variants_at, variants, strictify_variants, items_at,
  properties_at, properties, strictify_properties,
}
use agentverse.Tools.Schema.Strict.{
  nodes_enveloped, is_enveloped, enveloped, variants_enveloped-set_field, items_enveloped-set_field,
  properties_enveloped-set_field, variants_enveloped_at, variants_enveloped, all_enveloped,
  items_enveloped_at, properties_enveloped_at, properties_enveloped, fields_enveloped,
}
use agentverse.Tools.Schema.Stages.{
  holds, is_object, ready, variants_ready, items_ready, properties_ready, assemble-strict,
}

with_item-strict :
    (r : Result Json StrictSchemaError) (rest : Result Items StrictSchemaError)
    → holds nodes_enveloped r ≡ true
    → holds all_enveloped rest ≡ true
    → holds all_enveloped (with_item r rest) ≡ true
unfolding with_item nodes_enveloped
with_item-strict (err e) rest h k = refl
with_item-strict (ok j) (ok js) h k = rw (h, k) refl
with_item-strict (ok j) (err e) h k = refl

pub with_field-strict :
    (key : String) (r : Result Json StrictSchemaError) (rest : Result Fields StrictSchemaError)
    → holds nodes_enveloped r ≡ true
    → holds fields_enveloped rest ≡ true
    → holds fields_enveloped (with_field key r rest) ≡ true
unfolding with_field nodes_enveloped
with_field-strict key (err e) rest h k = refl
with_field-strict key (ok j) (ok fs) h k = rw (h, k) refl
with_field-strict key (ok j) (err e) h k = refl

-- a schema that gets a type that is not the one of objects
retyped-enveloped :
    (o : Option Json) (fs : Fields)
    → enveloped o fs ≡ true
    → enveloped o (set_field "type" any_type fs) ≡ true
unfolding enveloped object_typed any_type string_eq
retyped-enveloped none fs h = simp get-set_field
retyped-enveloped (some null) fs h = simp get-set_field
retyped-enveloped (some (bool b)) fs h = simp get-set_field
retyped-enveloped (some (number n)) fs h = simp get-set_field
retyped-enveloped (some (str s)) fs h = simp get-set_field
retyped-enveloped (some (array js)) fs h = simp get-set_field
retyped-enveloped (some (object ps)) fs h = simp get-set_field h

last-true :
    (v w x i p a b : Bool)
    → (a ≡ true → b ≡ true)
    → (v && (w && (x && (i && (p && a))))) ≡ true
    → (v && (w && (x && (i && (p && b))))) ≡ true
last-true v w x i p a b h k = ground (arith, h, k)

retyped-strict :
    (fs : Fields)
    → nodes_enveloped (object fs) ≡ true
    → nodes_enveloped (object (set_field "type" any_type fs)) ≡ true
unfolding nodes_enveloped is_enveloped string_eq
retyped-strict fs h =
    rw
      (
        variants_enveloped-set_field "type" any_type "oneOf" fs,
        variants_enveloped-set_field "type" any_type "anyOf" fs,
        variants_enveloped-set_field "type" any_type "allOf" fs,
        items_enveloped-set_field "type" any_type fs,
        properties_enveloped-set_field "type" any_type fs,
        get-set_field "properties" "type" any_type fs,
      )
      (last-true (variants_enveloped_at "oneOf" fs) (variants_enveloped_at "anyOf" fs)
        (variants_enveloped_at "allOf" fs) (items_enveloped_at fs) (properties_enveloped_at fs)
        (enveloped (get_field "properties" fs) fs)
        (enveloped (get_field "properties" fs) (set_field "type" any_type fs))
        (retyped-enveloped (get_field "properties" fs) fs) h)

ensure_nullable-strict :
    (j : Json) (path : String)
    → nodes_enveloped j ≡ true
    → holds nodes_enveloped (ensure_nullable_or_reject j path) ≡ true
unfolding ensure_nullable_or_reject
ensure_nullable-strict (object fs) path h = ground (arith, h, retyped-strict fs)
ensure_nullable-strict null path h = h
ensure_nullable-strict (bool b) path h = h
ensure_nullable-strict (number n) path h = h
ensure_nullable-strict (str s) path h = h
ensure_nullable-strict (array js) path h = h

demand-strict :
    (b : Bool) (path : String) (r : Result Json StrictSchemaError)
    → holds nodes_enveloped r ≡ true
    → holds nodes_enveloped (demand b path r) ≡ true
unfolding demand
demand-strict b path (err e) h = refl
demand-strict true path (ok j) h = h
demand-strict false path (ok j) h = ensure_nullable-strict j path h

-- a result behind a guard
pub unless :
    (p : Json → Bool) (b : Bool) (e : StrictSchemaError) (r : Result Json StrictSchemaError)
    → holds p r ≡ true
    → holds p (elim b [ true ↦ err e | false ↦ r ]) ≡ true
unless p true e r h = refl
unless p false e r h = h

pick :
    {A : Type 0} (p : A → Bool) (b : Bool) (o u : Option (Result A StrictSchemaError)) (x y : Bool)
    → ready p o x ≡ true
    → ready p u y ≡ true
    → ready p (elim b [ true ↦ o | false ↦ u ]) (elim b [ true ↦ x | false ↦ y ]) ≡ true
pick p true o u x y h k = h
pick p false o u x y h k = k

-- what stands under `properties` in a list of fields, where the key is the first or a later one
pick_properties :
    (b : Bool) (o u : Option (Result Fields StrictSchemaError)) (x y : Bool) (v : Json)
    (w : Option Json)
    → ready fields_enveloped o (x && not (is_object (some v))) ≡ true
    → ready fields_enveloped u (y && not (is_object w)) ≡ true
    → ready fields_enveloped
        (elim b [ true ↦ o | false ↦ u ])
        (elim b [ true ↦ x | false ↦ y ] && not (is_object (if b then some v else w)))
      ≡ true
pick_properties true o u x y v w h k = h
pick_properties false o u x y v w h k = k

module _ (show : ℕ → String) where
  mutual
    unfolding strictify_node nodes_enveloped get_field

    pub node-strict :
        (j : Json) (path : String) → holds nodes_enveloped (strictify_node show j path) ≡ true
    node-strict null path = refl
    node-strict (bool b) path = refl
    node-strict (number n) path = refl
    node-strict (str s) path = refl
    node-strict (array js) path = refl
    node-strict (object fs) path = unless nodes_enveloped (is_open fs) _ _ (
        assemble-strict (variants_at show fs "oneOf" path) (variants_at show fs "anyOf" path)
          (variants_at show fs "allOf" path) (items_at show fs (path <> ".items"))
          (properties_at show fs _ path) fs (variants_at-ready fs "oneOf" path)
          (variants_at-ready fs "anyOf" path) (variants_at-ready fs "allOf" path)
          (items_at-ready fs (path <> ".items")) (properties_at-ready fs _ path))

    variants_at-ready :
        (fs : Fields) (c path : String) → variants_ready c (variants_at show fs c path) fs ≡ true
    variants_at-ready end c path = refl
    variants_at-ready (field k v fs) c path =
        pick all_enveloped (k == c) _ _ _ _ (variants-ready v _) (variants_at-ready fs c path)

    variants-ready :
        (v : Json) (path : String)
        → ready all_enveloped (variants show v path) (variants_enveloped v) ≡ true
    variants-ready (array js) path = variants-strict js path 0
    variants-ready null path = refl
    variants-ready (bool b) path = refl
    variants-ready (number n) path = refl
    variants-ready (str s) path = refl
    variants-ready (object fs) path = refl

    variants-strict :
        (js : Items) (path : String) (i : ℕ)
        → holds all_enveloped (strictify_variants show js path i) ≡ true
    variants-strict nil path i = refl
    variants-strict (cons j js) path i =
        with_item-strict _ _ (node-strict j _) (variants-strict js path (suc i))

    items_at-ready : (fs : Fields) (path : String) → items_ready (items_at show fs path) fs ≡ true
    items_at-ready end path = refl
    items_at-ready (field k v fs) path =
        pick nodes_enveloped (k == "items") _ _ _ _ (node-strict v path) (items_at-ready fs path)

    properties_at-ready :
        (fs : Fields) (required : List String) (path : String)
        → properties_ready (properties_at show fs required path) fs ≡ true
    properties_at-ready end required path = refl
    properties_at-ready (field k v fs) required path =
        pick_properties (k == "properties") _ _ _ _ v (get_field "properties" fs)
          (properties-ready v required path) (properties_at-ready fs required path)

    properties-ready :
        (v : Json) (required : List String) (path : String)
        → ready fields_enveloped
            (properties show v required path)
            (properties_enveloped v && not (is_object (some v)))
          ≡ true
    properties-ready (object fs) required path = properties-strict fs required path
    properties-ready null required path = refl
    properties-ready (bool b) required path = refl
    properties-ready (number n) required path = refl
    properties-ready (str s) required path = refl
    properties-ready (array js) required path = refl

    properties-strict :
        (fs : Fields) (required : List String) (path : String)
        → holds fields_enveloped (strictify_properties show fs required path) ≡ true
    properties-strict end required path = refl
    properties-strict (field k v fs) required path =
        with_field-strict k _ _ (demand-strict (contains required k) _ _ (node-strict v _))
          (properties-strict fs required path)

  strict-node :
      (r : Result Json StrictSchemaError) (k : Json)
      → holds nodes_enveloped r ≡ true
      → r ≡ ok k
      → nodes_enveloped k ≡ true
  strict-node r k h e = rw e at h
