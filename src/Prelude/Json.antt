-- ===== src/Prelude/Json.antt =====
-- JSON values as the code uses `serde_json::Value`: built by `json!`, and asked by `get`, `as_str`
-- and their like.
use Prim.Native.String.{String}
use mathlib.Core.Bool.{Bool}
use mathlib.Core.Option.{Option, none, some}
use mathlib.Core.List.{List, [], ◌∷◌}
use text.Mathlib.Text.{◌==◌}
use gamchi.Prelude.Tests.{if◌then◌else◌}

-- A number is its text. The lists inside an array and an object are `Items` and `Fields`.
mutual
  pub data Value : Type 0 where
    object : Fields → Value
    array : Items → Value
    string number : String → Value
    boolean : Bool → Value
    null : Value

  pub data Fields : Type 0 where
    entry : String → Value → Fields → Fields
    no_fields : Fields

  pub data Items : Type 0 where
    element : Value → Items → Items
    no_items : Items

-- `json!([..])` and `json!({..})`.
abbrev pub items : List Value → Items
items [] = no_items
items (v ∷ vs) = element v (items vs)

abbrev pub fields : List (String × Value) → Fields
fields [] = no_fields
fields ((key, v) ∷ rest) = entry key v (fields rest)

abbrev pub arr : List Value → Value
arr vs = array (items vs)

abbrev pub obj : List (String × Value) → Value
obj entries = object (fields entries)

abbrev pub lookup_field : String → Fields → Option Value
lookup_field key no_fields = none
lookup_field key (entry k v rest) =
    let later = lookup_field key rest in if k == key then some v else later

-- `insert` on an object: the value of a key that is there is replaced.
abbrev pub insert_field : String → Value → Fields → Fields
insert_field key v no_fields = entry key v no_fields
insert_field key v (entry k w rest) =
    let later = insert_field key v rest in if k == key then entry k v rest else entry k w later

abbrev pub to_list : Items → List Value
to_list no_items = []
to_list (element v rest) = v ∷ to_list rest

-- `get` by a key.
abbrev pub get : Value → String → Option Value
get (object entries) key = lookup_field key entries
get _ key = none

-- `.and_then(|v| v.get(key))`.
abbrev pub get_in : Option Value → String → Option Value
get_in none key = none
get_in (some v) key = get v key

abbrev pub as_str : Value → Option String
as_str (string s) = some s
as_str _ = none

abbrev pub as_bool : Value → Option Bool
as_bool (boolean b) = some b
as_bool _ = none

abbrev pub as_array : Value → Option (List Value)
as_array (array vs) = some (to_list vs)
as_array _ = none

-- `.and_then(Value::as_str)`.
abbrev pub text_in : Option Value → Option String
text_in none = none
text_in (some v) = as_str v

-- `insert` where the value is an object; any other value stays.
abbrev pub with_field : String → Value → Value → Value
with_field key v (object entries) = object (insert_field key v entries)
with_field key v other = other
