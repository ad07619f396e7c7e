-- ===== src/Context/Evaluate/Values/Equivalence.antt =====
-- rust/crates/zf-context/src/context.rs: the fuel of `ContextValue::equivalent` is enough.
use zedflow.Base.{
  ℕ, zero, suc, ◌≤◌, ◌<◌, String, ◌≡◌, refl, ap, inl, inr, Bool, ◌&&◌, Option, none, some, List, [],
  ◌∷◌, arith, str_eq, Bool-cases, length, ◌==◌,
}
use zedflow.Base.Maps
use zedflow.Base.Maps.{Map}
use zedflow.Json
use zedflow.Json.{Value, as_array, as_object, items, members}
use zedflow.Context.Evaluate.Values.{
  ContextValue, ContextValues, ContextFields, no_values, value, no_fields, entry, values, fields,
  nth, array_len, index, field_of, as_value, keys_of, all_below, all_keys, levels, value_levels,
  field_levels, json_levels, item_levels, member_levels, same_object, same_value, same_array,
  equivalent_upto, equivalent, both_found, share,
}

-- A part of a value has fewer levels than the value.
nth-levels :
    (vs : ContextValues) (i : ℕ) (v : ContextValue)
    → nth (values vs) i ≡ some v
    → levels v ≤ value_levels vs
unfolding nth levels
nth-levels no_values i v h = cc
nth-levels (value w vs) zero v h = let same : w ≡ v = cc in omega (arith, ap levels same)
nth-levels (value w vs) (suc i) v h = omega (arith, nth-levels vs i v h)

get-levels :
    (fs : ContextFields) (k : String) (v : ContextValue)
    → Maps.get (fields fs) k ≡ some v
    → levels v ≤ field_levels fs
unfolding Maps.get levels
get-levels no_fields k v = λ h. cc
get-levels (entry j w fs) k v = elim (Bool-cases (str_eq j k)) [
  | inl e ↦ rw e (λ h. let same : w ≡ v = cc in omega (arith, ap levels same))
  | inr e ↦ rw e (λ h. omega (arith, get-levels fs k v h))
]

item-levels :
    (vs : Json.Items) (i : ℕ) (v : Value)
    → nth (items vs) i ≡ some v
    → json_levels v < item_levels vs
unfolding nth json_levels
item-levels Json.no_items i v h = cc
item-levels (Json.item w vs) zero v h = let same : w ≡ v = cc in omega (arith, ap json_levels same)
item-levels (Json.item w vs) (suc i) v h = omega (arith, item-levels vs i v h)

member-levels :
    (ms : Json.Members) (k : String) (v : Value)
    → Maps.get (members ms) k ≡ some v
    → json_levels v < member_levels ms
unfolding Maps.get json_levels
member-levels Json.no_members k v = λ h. cc
member-levels (Json.member j w ms) k v = elim (Bool-cases (str_eq j k)) [
  | inl e ↦ rw e (λ h. let same : w ≡ v = cc in omega (arith, ap json_levels same))
  | inr e ↦ rw e (λ h. omega (arith, member-levels ms k v h))
]

shared_levels :
    (o : Option Value) (n : ℕ) (v : ContextValue)
    → ((w : Value) → o ≡ some w → json_levels w < n)
    → share o ≡ some v
    → levels v ≤ n
unfolding levels
shared_levels none n v below h = cc
shared_levels (some w) n v below h =
    let same : ContextValue.shared w ≡ v = cc in omega (arith, below w refl, ap levels same)

pub index-levels :
    (a : ContextValue) (i : ℕ) (v : ContextValue) → index a i ≡ some v → levels v < levels a
unfolding index levels as_array json_levels
index-levels (ContextValue.object fs) i v h = cc
index-levels (ContextValue.array vs) i v h = omega (arith, nth-levels vs i v h)
index-levels (ContextValue.shared (Value.array vs)) i v h =
    omega (arith, shared_levels (nth (items vs) i) (item_levels vs) v (item-levels vs i) h)
index-levels (ContextValue.shared Value.null) i v h = cc
index-levels (ContextValue.shared (Value.bool b)) i v h = cc
index-levels (ContextValue.shared (Value.number n)) i v h = cc
index-levels (ContextValue.shared (Value.string s)) i v h = cc
index-levels (ContextValue.shared (Value.object ms)) i v h = cc

pub field-levels :
    (a : ContextValue) (k : String) (v : ContextValue) → field_of a k ≡ some v → levels v < levels a
unfolding field_of levels as_object json_levels
field-levels (ContextValue.object fs) k v h = omega (arith, get-levels fs k v h)
field-levels (ContextValue.array vs) k v h = cc
field-levels (ContextValue.shared (Value.object ms)) k v h =
    omega
      (arith, shared_levels (Maps.get (members ms) k) (member_levels ms) v (member-levels ms k) h)
field-levels (ContextValue.shared Value.null) k v h = cc
field-levels (ContextValue.shared (Value.bool b)) k v h = cc
field-levels (ContextValue.shared (Value.number n)) k v h = cc
field-levels (ContextValue.shared (Value.string s)) k v h = cc
field-levels (ContextValue.shared (Value.array vs)) k v h = cc

all_below-ext :
    (t u : ℕ → Bool) (i n : ℕ) → ((j : ℕ) → t j ≡ u j) → all_below t i n ≡ all_below u i n
unfolding all_below
all_below-ext t u i zero same = refl
all_below-ext t u i (suc n) same =
    let here = same i in let later = all_below-ext t u (suc i) n same in cc

all_keys-ext :
    (t u : String → Bool) (ks : List String)
    → ((k : String) → t k ≡ u k)
    → all_keys t ks ≡ all_keys u ks
unfolding all_keys
all_keys-ext t u [] same = refl
all_keys-ext t u (k ∷ ks) same = let here = same k in let later = all_keys-ext t u ks same in cc

module _ (value_eq : Value → Value → Bool) (f g : ContextValue → ContextValue → Bool)
    (a b : ContextValue) (agree : (x y : ContextValue) → levels x < levels a → f x y ≡ g x y) where
  found_agree :
      (o p : Option ContextValue)
      → ((x : ContextValue) → o ≡ some x → levels x < levels a)
      → both_found f o p ≡ both_found g o p
  found_agree none p below = refl
  found_agree (some x) none below = refl
  found_agree (some x) (some y) below = agree x y (below x refl)

  object_agree :
      (o p : Option (List String)) → same_object value_eq f a b o p ≡ same_object value_eq g a b o p
  unfolding same_object
  object_agree none p = refl
  object_agree (some left) none = refl
  object_agree (some left) (some right) =
      ap (λ z. length left == length right && z)
        (all_keys-ext _ _ left
          (λ k. found_agree (field_of a k) (field_of b k) (λ x. field-levels a k x)))

  value_agree : (o p : Option Value) → same_value value_eq f a b o p ≡ same_value value_eq g a b o p
  unfolding same_value
  value_agree none p = object_agree (keys_of a) (keys_of b)
  value_agree (some v) none = object_agree (keys_of a) (keys_of b)
  value_agree (some v) (some w) = refl

  array_agree : (o p : Option ℕ) → same_array value_eq f a b o p ≡ same_array value_eq g a b o p
  unfolding same_array
  array_agree none p = value_agree (as_value a) (as_value b)
  array_agree (some m) none = value_agree (as_value a) (as_value b)
  array_agree (some m) (some n) =
      ap (λ z. m == n && z)
        (all_below-ext _ _ 0 m (λ i. found_agree (index a i) (index b i) (λ x. index-levels a i x)))

module _ (value_eq : Value → Value → Bool) where
  upto_agree :
      (m n : ℕ) (a b : ContextValue)
      → levels a < m
      → levels a < n
      → equivalent_upto value_eq m a b ≡ equivalent_upto value_eq n a b
  unfolding equivalent_upto
  upto_agree zero n a b small small' = ground arith
  upto_agree (suc m) zero a b small small' = ground arith
  upto_agree (suc m) (suc n) a b small small' =
      array_agree value_eq (equivalent_upto value_eq m) (equivalent_upto value_eq n) a b
        (λ x y less. upto_agree m n x y (omega (arith, less, small)) (omega (arith, less, small')))
        (array_len a) (array_len b)

  -- The comparison of values has no bound: it satisfies the recursive definition of the code, in which
  -- the parts of two collections are compared by the comparison itself.
  pub equivalent_lem :
      (a b : ContextValue)
      → equivalent value_eq a b
        ≡ same_array value_eq (equivalent value_eq) a b (array_len a) (array_len b)
  unfolding equivalent equivalent_upto
  equivalent_lem a b =
      array_agree value_eq (equivalent_upto value_eq (levels a)) (equivalent value_eq) a b
        (λ x y less. upto_agree (levels a) (suc (levels x)) x y less (omega arith)) (array_len a)
        (array_len b)
