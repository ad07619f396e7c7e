-- ===== src/Json.antt =====
-- JSON documents and the readers of `serde_json::Value` that the crates call: a lookup by key, an
-- index that gives null for a missing key, and the casts `as_str`, `as_array`, `as_object`.
-- Arrays and objects have list types of their own, with functions to `List` and `Map`.
use zedflow.Base.{ℕ, String, Bool, true, false, Option, none, some, List, [], ◌∷◌, get_or}
use zedflow.Base.Maps
use zedflow.Base.Maps.{Map}

-- The three documented classes of numbers: `as_u64`, a negative `as_i64` (`neg_int n` is -(n + 1)),
-- and a finite `f64` by its bit pattern.
pub data Number : Type 0 where
  pos_int neg_int float : ℕ → Number

mutual
  pub data Value : Type 0 where
    null : Value
    bool : Bool → Value
    number : Number → Value
    string : String → Value
    array : Items → Value
    object : Members → Value

  pub data Items : Type 0 where
    no_items : Items
    item : Value → Items → Items

  pub data Members : Type 0 where
    no_members : Members
    member : String → Value → Members → Members

abbrev pub items : Items → List Value
items no_items = []
items (item v vs) = v ∷ items vs

abbrev pub members : Members → Map Value
members no_members = []
members (member k v ms) = (k, v) ∷ members ms

abbrev pub to_items : List Value → Items
to_items [] = no_items
to_items (v ∷ vs) = item v (to_items vs)

abbrev pub to_members : Map Value → Members
to_members [] = no_members
to_members ((k, v) ∷ m) = member k v (to_members m)

unfoldable pub as_bool : Value → Option Bool
as_bool (bool b) = some b
as_bool _ = none

unfoldable pub as_str : Value → Option String
as_str (string s) = some s
as_str _ = none

unfoldable pub as_array : Value → Option (List Value)
as_array (array vs) = some (items vs)
as_array _ = none

unfoldable pub as_object : Value → Option (Map Value)
as_object (object ms) = some (members ms)
as_object _ = none

unfoldable pub as_u64 : Value → Option ℕ
as_u64 (number (pos_int n)) = some n
as_u64 _ = none

unfoldable pub is_null : Value → Bool
is_null null = true
is_null _ = false

unfoldable pub is_boolean : Value → Bool
is_boolean (bool b) = true
is_boolean _ = false

unfoldable pub is_number : Value → Bool
is_number (number n) = true
is_number _ = false

unfoldable pub is_string : Value → Bool
is_string (string s) = true
is_string _ = false

unfoldable pub is_array : Value → Bool
is_array (array vs) = true
is_array _ = false

unfoldable pub is_object : Value → Bool
is_object (object ms) = true
is_object _ = false

-- `value.get(key)`
unfoldable pub get : Value → String → Option Value
get (object ms) k = Maps.get (members ms) k
get _ k = none

-- `value[key]`
unfoldable pub index : Value → String → Value
unfolding get
index v k = get_or (get v k) null
