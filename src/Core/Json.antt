-- ===== src/Core/Json.antt =====
-- The shape of `serde_json::Value`, which is not code of the repository: the six cases that the
-- repository matches on. A number is kept by its text. An object is a list of fields, each key once.
use agentverse.Base.{
  String, ◌≡◌, refl, arith, Option, none, some, Bool, ◌==◌, string_eq, if◌then◌else◌,
}

mutual
  pub data Json : Type 0 where
    null : Json
    bool : Bool → Json
    number : String → Json
    str : String → Json
    array : Items → Json
    object : Fields → Json

  pub data Items : Type 0 where
    nil : Items
    cons : Json → Items → Items

  pub data Fields : Type 0 where
    end : Fields
    field : String → Json → Fields → Fields

-- `Map::get`
unfoldable pub get_field : String → Fields → Option Json
get_field k end = none
get_field k (field j v fs) = if j == k then some v else get_field k fs

-- `value[key]`: `Null` where the key is missing or the value is no object
unfoldable pub index : Json → String → Json
unfolding get_field
index (object fs) k = elim (get_field k fs) [ none ↦ null | some v ↦ v ]
index _ k = null

-- `as_str`
abbrev pub as_str : Json → Option String
as_str (str s) = some s
as_str _ = none

-- `Map::insert`
unfoldable pub set_field : String → Json → Fields → Fields
set_field k v end = field k v end
set_field k v (field j w fs) = if j == k then field k v fs else field j w (set_field k v fs)

pub get-set_field :
    (j k : String) (v : Json) (fs : Fields)
    → get_field j (set_field k v fs) ≡ (if k == j then some v else get_field j fs)
unfolding get_field set_field
get-set_field j k v end = refl
get-set_field j k v (field i w fs) = ground (arith, get-set_field j k v fs)
