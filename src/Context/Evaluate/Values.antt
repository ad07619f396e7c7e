-- ===== src/Context/Evaluate/Values.antt =====
-- rust/crates/zf-context/src/context.rs: `ContextValue`, `measured_bytes` and `compare_values`.
-- A reference into a resource, `Shared { root, pointer }`, is modelled by the value that it refers
-- to: the code makes such references only for a root or for a part that it has just found.
-- The serializers of `serde_json` and the operations on `f64` are parameters.
pub mod Numbers
pub mod Equivalence
pub mod Alike
pub mod Measure
use zedflow.Base.{
  ℕ, zero, suc, ◌+◌, ◌-◌, String, ◌<>◌, Bool, true, false, not, ◌&&◌, Option, none, some, List, [],
  ◌∷◌, str_eq, leb, ltb, ◌==◌, if◌then◌else◌, length, map,
}
use zedflow.Base.Panic.{◌>>=◌}
use zedflow.Base.Text.{utf8_len}
use zedflow.Base.Maps
use zedflow.Base.Maps.{Map, keys}
use zedflow.Json
use zedflow.Json.{Value, Number, pos_int, neg_int, float, as_str, as_array, as_object}
use Prim.Native.Nat.{Ordering}
use Prim.Native.Nat
use Prim.Native.String

mutual
  pub data ContextValue : Type 0 where
    shared : Value → ContextValue
    object : ContextFields → ContextValue
    array : ContextValues → ContextValue

  pub data ContextValues : Type 0 where
    no_values : ContextValues
    value : ContextValue → ContextValues → ContextValues

  pub data ContextFields : Type 0 where
    no_fields : ContextFields
    entry : String → ContextValue → ContextFields → ContextFields

abbrev pub values : ContextValues → List ContextValue
values no_values = []
values (value v vs) = v ∷ values vs

abbrev pub fields : ContextFields → Map ContextValue
fields no_fields = []
fields (entry k v fs) = (k, v) ∷ fields fs

abbrev pub to_values : List ContextValue → ContextValues
to_values [] = no_values
to_values (v ∷ vs) = value v (to_values vs)

abbrev pub to_fields : Map ContextValue → ContextFields
to_fields [] = no_fields
to_fields ((k, v) ∷ m) = entry k v (to_fields m)

-- `items.get(index)`
unfoldable pub nth {ℓ} : {A : Type ℓ} → List A → ℕ → Option A
nth [] n = none
nth (x ∷ xs) zero = some x
nth (x ∷ xs) (suc n) = nth xs n

-- `ContextValue::as_value`
unfoldable pub as_value : ContextValue → Option Value
as_value (shared v) = some v
as_value (object fs) = none
as_value (array vs) = none

-- `ContextValue::owned`
abbrev pub owned : Value → ContextValue
owned v = shared v

abbrev pub share : Option Value → Option ContextValue
share none = none
share (some v) = some (shared v)

-- `ContextValue::field`
unfoldable pub field_of : ContextValue → String → Option ContextValue
field_of (object fs) name = Maps.get (fields fs) name
field_of (array vs) name = none
field_of (shared v) name = as_object v >>= λ m. share (Maps.get m name)

-- `ContextValue::array_len`
unfoldable pub array_len : ContextValue → Option ℕ
array_len (array vs) = some (length (values vs))
array_len (object fs) = none
array_len (shared v) = as_array v >>= λ vs. some (length vs)

-- `ContextValue::index`
unfoldable pub index : ContextValue → ℕ → Option ContextValue
unfolding nth
index (array vs) i = nth (values vs) i
index (shared v) i = as_array v >>= λ vs. share (nth vs i)
index (object fs) i = none

-- `value.as_value().and_then(Value::as_str)`
abbrev pub text_of : ContextValue → Option String
text_of v = as_value v >>= as_str

-- The value that `serialize` describes to a serializer.
unfoldable mutual
  pub as_json : ContextValue → Value
  as_json (shared v) = v
  as_json (object fs) = Value.object (json_members fs)
  as_json (array vs) = Value.array (json_items vs)

  json_items : ContextValues → Json.Items
  json_items no_values = Json.no_items
  json_items (value v vs) = Json.item (as_json v) (json_items vs)

  json_members : ContextFields → Json.Members
  json_members no_fields = Json.no_members
  json_members (entry k v fs) = Json.member k (as_json v) (json_members fs)

-- The keys that `equivalent` compares two objects by.
unfoldable pub keys_of : ContextValue → Option (List String)
keys_of (object fs) = some (keys (fields fs))
keys_of v = as_value v >>= λ w. as_object w >>= λ m. some (keys m)

-- `match (a, b) { (Some(a), Some(b)) => a.equivalent(&b), _ => false }`
abbrev pub both_found :
    (ContextValue → ContextValue → Bool) → Option ContextValue → Option ContextValue → Bool
both_found same (some a) (some b) = same a b
both_found same _ _ = false

-- `(from..from + n).all(test)`
unfoldable pub all_below : (ℕ → Bool) → ℕ → ℕ → Bool
all_below test i zero = true
all_below test i (suc n) = test i && all_below test (suc i) n

unfoldable pub all_keys : (String → Bool) → List String → Bool
all_keys test [] = true
all_keys test (k ∷ ks) = test k && all_keys test ks

unfoldable mutual
  pub json_levels : Value → ℕ
  json_levels (Value.array vs) = suc (item_levels vs)
  json_levels (Value.object ms) = suc (member_levels ms)
  json_levels _ = 0

  pub item_levels : Json.Items → ℕ
  item_levels Json.no_items = 0
  item_levels (Json.item v vs) = suc (json_levels v) + item_levels vs

  pub member_levels : Json.Members → ℕ
  member_levels Json.no_members = 0
  member_levels (Json.member k v ms) = suc (json_levels v) + member_levels ms

-- How many levels a value has: `equivalent` goes down one of them in each call.
unfoldable mutual
  pub levels : ContextValue → ℕ
  levels (shared v) = suc (json_levels v)
  levels (object fs) = suc (field_levels fs)
  levels (array vs) = suc (value_levels vs)

  value_levels : ContextValues → ℕ
  value_levels no_values = 0
  value_levels (value v vs) = levels v + value_levels vs

  field_levels : ContextFields → ℕ
  field_levels no_fields = 0
  field_levels (entry k v fs) = levels v + field_levels fs

-- `value_eq` is the `==` of `serde_json::Value`.
module _ (value_eq : Value → Value → Bool) where
  unfoldable pub same_object :
      (ContextValue → ContextValue → Bool)
      → ContextValue
      → ContextValue
      → Option (List String)
      → Option (List String)
      → Bool
  unfolding all_keys
  same_object same a b (some left) (some right) =
      length left == length right
      && all_keys (λ k. both_found same (field_of a k) (field_of b k)) left
  same_object same a b _ _ = false

  unfoldable pub same_value :
      (ContextValue → ContextValue → Bool)
      → ContextValue
      → ContextValue
      → Option Value
      → Option Value
      → Bool
  unfolding same_object
  same_value same a b (some left) (some right) = value_eq left right
  same_value same a b _ _ = same_object same a b (keys_of a) (keys_of b)

  unfoldable pub same_array :
      (ContextValue → ContextValue → Bool)
      → ContextValue
      → ContextValue
      → Option ℕ
      → Option ℕ
      → Bool
  unfolding all_below same_value
  same_array same a b (some left) (some right) =
      left == right && all_below (λ i. both_found same (index a i) (index b i)) 0 left
  same_array same a b _ _ = same_value same a b (as_value a) (as_value b)

  unfoldable pub equivalent_upto : ℕ → ContextValue → ContextValue → Bool
  unfolding same_array
  equivalent_upto zero a b = false
  equivalent_upto (suc fuel) a b = same_array (equivalent_upto fuel) a b (array_len a) (array_len b)

  -- `ContextValue::equivalent`
  unfoldable pub equivalent : ContextValue → ContextValue → Bool
  unfolding equivalent_upto
  equivalent a b = equivalent_upto (suc (levels a)) a b

-- The writer `Counter` of `measured_bytes`: the chunks that it accepts within the bound.
unfoldable pub count_chunks : ℕ → ℕ → List ℕ → Option ℕ
count_chunks max counted [] = some counted
count_chunks max counted (size ∷ rest) =
    let later = count_chunks max (counted + size) rest in
    if ltb (max - counted) size then none else later

abbrev within_max : ℕ → ℕ → Option ℕ
within_max max size = if leb size max then some size else none

-- `chunks` are the sizes in which `serde_json::to_writer` writes a value.
module _ (chunks : Value → List ℕ) where
  unfoldable pub measured : ContextValue → ℕ → Option String → Option ℕ
  unfolding count_chunks
  measured v max (some s) = within_max max (utf8_len s)
  measured v max none = count_chunks max 0 (chunks (as_json v))

  unfoldable pub measured_bytes : ContextValue → ℕ → Option ℕ
  unfolding measured
  measured_bytes v max = measured v max (text_of v)
