-- ===== src/Tools/Schema/Stages.antt =====
-- How a node is put together from its rewritten parts, and that each part keeps what the others did.
use agentverse.Base.{
  String, Bool, true, false, not, ◌&&◌, ◌==◌, string_eq, ◌≡◌, refl, ◌∙◌, inl, inr, Bool-cases,
  Option, none, some, Result, ok, err, ◌>>=◌, arith,
}
use agentverse.Core.Json.{
  Json, null, bool, number, str, array, object, Items, Fields, end, get_field, set_field,
  get-set_field,
}
use agentverse.Tools.Schema.{
  StrictSchemaError, object_typed, envelope, set_variants, set_items, finish, assemble,
}
use agentverse.Tools.Schema.Strict.{
  nodes_enveloped, is_enveloped, enveloped, variants_enveloped_at, all_enveloped,
  items_enveloped_at, properties_enveloped_at, fields_enveloped, variants_enveloped-set_field,
  items_enveloped-set_field, properties_enveloped-set_field, same_names-keys_of,
}

-- a test on what a rewriting returns, if it returns
abbrev pub holds : {A : Type 0} → (A → Bool) → Result A StrictSchemaError → Bool
holds p (ok a) = p a
holds p (err e) = true

abbrev pub is_object : Option Json → Bool
is_object (some (object fs)) = true
is_object _ = false

-- the part of a node that stands under a key is enveloped once it is put back
abbrev pub ready : {A : Type 0} → (A → Bool) → Option (Result A StrictSchemaError) → Bool → Bool
ready p none before = before
ready p (some r) before = holds p r

abbrev pub variants_ready : String → Option (Result Items StrictSchemaError) → Fields → Bool
variants_ready c o f = ready all_enveloped o (variants_enveloped_at c f)

abbrev pub items_ready : Option (Result Json StrictSchemaError) → Fields → Bool
items_ready o f = ready nodes_enveloped o (items_enveloped_at f)

abbrev pub properties_ready : Option (Result Fields StrictSchemaError) → Fields → Bool
properties_ready o f =
    ready fields_enveloped o
      (properties_enveloped_at f && not (is_object (get_field "properties" f)))

-- only what stands under one key has changed
record Keeps (c : String) (f g : Fields) : Type 0 where
  variants : (d : String) → c == d ≡ false → variants_enveloped_at d g ≡ variants_enveloped_at d f
  items : c == "items" ≡ false → items_enveloped_at g ≡ items_enveloped_at f
  properties : c == "properties" ≡ false → properties_enveloped_at g ≡ properties_enveloped_at f
  fields : (d : String) → c == d ≡ false → get_field d g ≡ get_field d f

Keeps-refl : (c : String) (f : Fields) → Keeps c f f
Keeps-refl c f = record {
  variants = λ d n. refl;
  items = λ n. refl;
  properties = λ n. refl;
  fields = λ d n. refl;
}

Keeps-set_field : (c : String) (v : Json) (f : Fields) → Keeps c f (set_field c v f)
Keeps-set_field c v f = record {
  variants = λ d n. rw n at (variants_enveloped-set_field c v d f);
  items = λ n. rw n at (items_enveloped-set_field c v f);
  properties = λ n. rw n at (properties_enveloped-set_field c v f);
  fields = λ d n. rw n at (get-set_field d c v f);
}

after_variants :
    (c : String) (o : Option (Result Items StrictSchemaError)) (f : Fields)
    (next : Fields → Result Json StrictSchemaError)
    → variants_ready c o f ≡ true
    → ((g : Fields)
        → Keeps c f g
        → variants_enveloped_at c g ≡ true
        → holds nodes_enveloped (next g) ≡ true)
    → holds nodes_enveloped (set_variants c o f >>= next) ≡ true
unfolding set_variants nodes_enveloped
after_variants c none f next ready h = h f (Keeps-refl c f) ready
after_variants c (some (ok js)) f next ready h =
    h (set_field c (array js) f) (Keeps-set_field c (array js) f)
      (ground (arith, variants_enveloped-set_field c (array js) c f, ready))
after_variants c (some (err e)) f next ready h = refl

after_items :
    (o : Option (Result Json StrictSchemaError)) (f : Fields)
    (next : Fields → Result Json StrictSchemaError)
    → items_ready o f ≡ true
    → ((g : Fields)
        → Keeps "items" f g
        → items_enveloped_at g ≡ true
        → holds nodes_enveloped (next g) ≡ true)
    → holds nodes_enveloped (set_items o f >>= next) ≡ true
unfolding set_items
after_items none f next ready h = h f (Keeps-refl "items" f) ready
after_items (some (ok j)) f next ready h =
    h (set_field "items" j f) (Keeps-set_field "items" j f)
      (ground (arith, items_enveloped-set_field "items" j f, ready))
after_items (some (err e)) f next ready h = refl

-- a node with enveloped variants and items, once its properties are put back
abbrev PartsStrict : Fields → Type 0
PartsStrict f =
    (variants_enveloped_at "oneOf" f ≡ true)
    × (variants_enveloped_at "anyOf" f ≡ true)
    × (variants_enveloped_at "allOf" f ≡ true)
    × (items_enveloped_at f ≡ true)

envelope-strict :
    (ps f : Fields)
    → PartsStrict f
    → fields_enveloped ps ≡ true
    → nodes_enveloped (object (envelope ps f)) ≡ true
unfolding envelope nodes_enveloped is_enveloped string_eq get_field
envelope-strict ps f (one, any, all, items) strict = simp (
  variants_enveloped-set_field, items_enveloped-set_field, properties_enveloped-set_field,
  get-set_field, one, any, all, items, strict, same_names-keys_of,
)

not_object-enveloped :
    (o : Option Json) (f : Fields)
    → is_object o ≡ false
    → object_typed f ≡ false
    → enveloped o f ≡ true
unfolding enveloped
not_object-enveloped none f n t = ground (arith, t)
not_object-enveloped (some null) f n t = ground (arith, t)
not_object-enveloped (some (bool b)) f n t = ground (arith, t)
not_object-enveloped (some (number b)) f n t = ground (arith, t)
not_object-enveloped (some (str b)) f n t = ground (arith, t)
not_object-enveloped (some (array b)) f n t = ground (arith, t)
not_object-enveloped (some (object ps)) f n t = ground (arith, n)

both-true : (a b : Bool) → (a && not b) ≡ true → (a ≡ true) × (b ≡ false)
both-true true true e = ground (arith, e)
both-true true false e = (refl, refl)
both-true false b e = ground (arith, e)

untyped-strict :
    (f : Fields)
    → PartsStrict f
    → properties_ready none f ≡ true
    → object_typed f ≡ false
    → nodes_enveloped (object f) ≡ true
unfolding nodes_enveloped is_enveloped
untyped-strict f (one, any, all, items) ready t =
    let (properties, no_object) = both-true (properties_enveloped_at f) _ ready in
    simp (
      one,
      any,
      all,
      items,
      properties,
      not_object-enveloped (get_field "properties" f) f no_object t,
    )

finish-strict :
    (o : Option (Result Fields StrictSchemaError)) (f : Fields)
    → PartsStrict f
    → properties_ready o f ≡ true
    → holds nodes_enveloped (finish o f) ≡ true
unfolding finish
finish-strict none f parts ready = elim (Bool-cases (object_typed f)) [
  | inl t ↦ rw (t, finish) (envelope-strict end f parts (unfold nodes_enveloped in refl))
  | inr t ↦ rw (t, finish) (untyped-strict f parts ready t)
]
finish-strict (some (ok ps)) f parts ready = envelope-strict ps f parts ready
finish-strict (some (err e)) f parts ready = refl

variants_ready-Keeps :
    (c : String) (o : Option (Result Items StrictSchemaError)) (d : String) (f g : Fields)
    → Keeps d f g
    → d == c ≡ false
    → variants_ready c o f ≡ true
    → variants_ready c o g ≡ true
variants_ready-Keeps c none d f g k n ready = k.variants c n ∙ ready
variants_ready-Keeps c (some r) d f g k n ready = ready

items_ready-Keeps :
    (o : Option (Result Json StrictSchemaError)) (d : String) (f g : Fields)
    → Keeps d f g
    → d == "items" ≡ false
    → items_ready o f ≡ true
    → items_ready o g ≡ true
items_ready-Keeps none d f g k n ready = k.items n ∙ ready
items_ready-Keeps (some r) d f g k n ready = ready

properties_ready-Keeps :
    (o : Option (Result Fields StrictSchemaError)) (d : String) (f g : Fields)
    → Keeps d f g
    → d == "properties" ≡ false
    → properties_ready o f ≡ true
    → properties_ready o g ≡ true
properties_ready-Keeps none d f g k n ready = rw (k.properties n, k.fields "properties" n) ready
properties_ready-Keeps (some r) d f g k n ready = ready

pub assemble-strict :
    (one any all : Option (Result Items StrictSchemaError))
    (items : Option (Result Json StrictSchemaError))
    (properties : Option (Result Fields StrictSchemaError)) (f : Fields)
    → variants_ready "oneOf" one f ≡ true
    → variants_ready "anyOf" any f ≡ true
    → variants_ready "allOf" all f ≡ true
    → items_ready items f ≡ true
    → properties_ready properties f ≡ true
    → holds nodes_enveloped (assemble one any all items properties f) ≡ true
unfolding assemble string_eq
assemble-strict one any all items properties f r1 r2 r3 r4 r5 =
    after_variants "oneOf" one f _ r1 λ f1 k1 s1.
      after_variants "anyOf" any f1 _ (variants_ready-Keeps "anyOf" any "oneOf" f f1 k1 refl r2)
        λ f2 k2 s2.
          after_variants "allOf" all f2 _
            (variants_ready-Keeps "allOf" all "anyOf" f1 f2 k2 refl
              (variants_ready-Keeps "allOf" all "oneOf" f f1 k1 refl r3))
            λ f3 k3 s3.
              after_items items f3 _
                (items_ready-Keeps items "allOf" f2 f3 k3 refl (
                  items_ready-Keeps items "anyOf" f1 f2 k2 refl
                    (items_ready-Keeps items "oneOf" f f1 k1 refl r4)))
                λ f4 k4 s4.
                  finish-strict properties f4
                    (
                      k4.variants "oneOf" refl
                          ∙ k3.variants "oneOf" refl
                          ∙ k2.variants "oneOf" refl
                          ∙ s1,
                      k4.variants "anyOf" refl ∙ k3.variants "anyOf" refl ∙ s2,
                      k4.variants "allOf" refl ∙ s3,
                      s4,
                    )
                    (properties_ready-Keeps properties "items" f3 f4 k4 refl (
                      properties_ready-Keeps properties "allOf" f2 f3 k3 refl (
                        properties_ready-Keeps properties "anyOf" f1 f2 k2 refl
                          (properties_ready-Keeps properties "oneOf" f f1 k1 refl r5))))
