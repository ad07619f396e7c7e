-- ===== src/Context/Evaluate/Values/Alike.antt =====
-- rust/crates/zf-context/src/context.rs: `ContextValue::equivalent` decides when two values are alike,
-- part by part.
use zedflow.Base.{
  ℕ, zero, suc, ◌+◌, ◌≤◌, ◌<◌, String, ◌≡◌, ◌↔◌, refl, sym, ◌∙◌, ap, subst, inl, inr, Bool, true,
  false, ◌&&◌, Option, none, some, is_some, List, [], ◌∷◌, arith, str_eq, eq_iff, Bool-cases,
  length, ◌==◌, contains, and→both,
}
use zedflow.Json.{Value}
use zedflow.Context.Evaluate.Values.{
  ContextValue, array_len, index, field_of, as_value, keys_of, all_below, all_keys, levels,
  same_object, same_value, same_array, equivalent, both_found,
}
use zedflow.Context.Evaluate.Values.Equivalence.{equivalent_lem, index-levels, field-levels}

abbrev pub both_arrays : ContextValue → ContextValue → Bool
both_arrays a b = is_some (array_len a) && is_some (array_len b)

abbrev pub both_values : ContextValue → ContextValue → Bool
both_values a b = is_some (as_value a) && is_some (as_value b)

-- Two arrays are alike when they are equally long and all elements are; two references into resources
-- that are not both arrays, when the values are equal; and two other objects, when they have equally
-- many keys and under each key of the first there are parts in both that are alike.
mutual
  pub data Alike (value_eq : Value → Value → Bool) : ContextValue → ContextValue → Type 0 where
    arrays :
        {a b : ContextValue} {n : ℕ}
        → array_len a ≡ some n
        → array_len b ≡ some n
        → ((i : ℕ) → i < n → AlikeParts value_eq (index a i) (index b i))
        → Alike value_eq a b
    json :
        {a b : ContextValue} {v w : Value}
        → both_arrays a b ≡ false
        → as_value a ≡ some v
        → as_value b ≡ some w
        → value_eq v w ≡ true
        → Alike value_eq a b
    objects :
        {a b : ContextValue} {left right : List String}
        → both_arrays a b ≡ false
        → both_values a b ≡ false
        → keys_of a ≡ some left
        → keys_of b ≡ some right
        → length left ≡ length right
        → ((k : String)
            → contains left k ≡ true
            → AlikeParts value_eq (field_of a k) (field_of b k))
        → Alike value_eq a b

  pub data AlikeParts (value_eq : Value → Value → Bool)
      : Option ContextValue → Option ContextValue → Type 0 where
    both : {x y : ContextValue} → Alike value_eq x y → AlikeParts value_eq (some x) (some y)

below_at : (t : ℕ → Bool) (i n j : ℕ) → all_below t i n ≡ true → i ≤ j → j < i + n → t j ≡ true
unfolding all_below
below_at t i zero j h low high = absurd (omega (arith, low, high))
below_at t i (suc n) j h low high =
    let (here, later) = and→both (t i) (all_below t (suc i) n) h in
    elim (Bool-cases (i == j)) [
      | inl e ↦ let same : i ≡ j = ground (arith, e) in subst (λ k. t k ≡ true) same here
      | inr e ↦ below_at t (suc i) n j later (ground (arith, e, low)) (omega (arith, high))
    ]

all_below-true :
    (t : ℕ → Bool) (i n : ℕ) → ((j : ℕ) → j < i + n → t j ≡ true) → all_below t i n ≡ true
unfolding all_below
all_below-true t i zero each = refl
all_below-true t i (suc n) each =
    rw (each i (omega arith)) (all_below-true t (suc i) n (λ j h. each j (omega (arith, h))))

keys_at :
    (t : String → Bool) (ks : List String) (k : String)
    → all_keys t ks ≡ true
    → contains ks k ≡ true
    → t k ≡ true
unfolding all_keys
keys_at t [] k h inside = cc
keys_at t (j ∷ ks) k h inside =
    let (here, later) = and→both (t j) (all_keys t ks) h in
    elim (Bool-cases (str_eq j k)) [
      | inl e ↦ subst (λ z. t z ≡ true) ((eq_iff j k).0 e) here
      | inr e ↦ keys_at t ks k later (ground (arith, e, inside))
    ]

all_keys-true :
    (t : String → Bool) (ks : List String)
    → ((k : String) → contains ks k ≡ true → t k ≡ true)
    → all_keys t ks ≡ true
unfolding all_keys
all_keys-true t [] each = refl
all_keys-true t (j ∷ ks) each =
    rw (each j (ground (arith, eq_iff j j)))
      (all_keys-true t ks (λ k h. each k (ground (arith, h))))

module _ (value_eq : Value → Value → Bool) where
  abbrev same : ContextValue → ContextValue → Bool
  same = equivalent value_eq

  found_parts :
      (o p : Option ContextValue)
      → ((x y : ContextValue) → o ≡ some x → same x y ≡ true → Alike value_eq x y)
      → both_found same o p ≡ true
      → AlikeParts value_eq o p
  found_parts none p each h = cc
  found_parts (some x) none each h = cc
  found_parts (some x) (some y) each h = both (each x y refl h)

  module _ (a b : ContextValue)
      (each : (x y : ContextValue)
        → levels x < levels a
        → same x y ≡ true
        → Alike value_eq x y) where
    object-Alike :
        (o p : Option (List String))
        → keys_of a ≡ o
        → keys_of b ≡ p
        → both_arrays a b ≡ false
        → both_values a b ≡ false
        → same_object value_eq same a b o p ≡ true
        → Alike value_eq a b
    unfolding same_object
    object-Alike none p e f no_arrays no_values h = cc
    object-Alike (some left) none e f no_arrays no_values h = cc
    object-Alike (some left) (some right) e f no_arrays no_values h =
        let test : String → Bool = λ k. both_found same (field_of a k) (field_of b k) in
        let (long, found) = and→both (length left == length right) (all_keys test left) h in
        objects no_arrays no_values e f (ground (arith, long)) λ k inside.
          found_parts (field_of a k) (field_of b k) (λ x y here. each x y (field-levels a k x here))
            (keys_at test left k found inside)

    value-Alike :
        (o p : Option Value)
        → as_value a ≡ o
        → as_value b ≡ p
        → both_arrays a b ≡ false
        → same_value value_eq same a b o p ≡ true
        → Alike value_eq a b
    unfolding same_value
    value-Alike none p e f no_arrays h =
        object-Alike (keys_of a) (keys_of b) refl refl no_arrays (rw e refl) h
    value-Alike (some v) none e f no_arrays h =
        object-Alike (keys_of a) (keys_of b) refl refl no_arrays (rw (e, f) refl) h
    value-Alike (some v) (some w) e f no_arrays h = json no_arrays e f h

    array-Alike :
        (o p : Option ℕ)
        → array_len a ≡ o
        → array_len b ≡ p
        → same_array value_eq same a b o p ≡ true
        → Alike value_eq a b
    unfolding same_array
    array-Alike none p e f h = value-Alike (as_value a) (as_value b) refl refl (rw e refl) h
    array-Alike (some m) none e f h =
        value-Alike (as_value a) (as_value b) refl refl (rw (e, f) refl) h
    array-Alike (some m) (some n) e f h =
        let test : ℕ → Bool = λ i. both_found same (index a i) (index b i) in
        let (long, found) = and→both (m == n) (all_below test 0 m) h in
        let equal : n ≡ m = ground (arith, long) in
        arrays e (f ∙ ap some equal) λ i low.
          found_parts (index a i) (index b i) (λ x y here. each x y (index-levels a i x here))
            (below_at test 0 m i found (omega arith) (omega (arith, low)))

  Alike-upto : (n : ℕ) (a b : ContextValue) → levels a < n → same a b ≡ true → Alike value_eq a b
  Alike-upto zero a b small h = absurd (omega (arith, small))
  Alike-upto (suc n) a b small h =
      array-Alike a b (λ x y less. Alike-upto n x y (omega (arith, less, small))) (array_len a)
        (array_len b) refl refl (sym (equivalent_lem value_eq a b) ∙ h)

  after_arrays :
      (a b : ContextValue) (o p : Option ℕ)
      → is_some o && is_some p ≡ false
      → same_value value_eq same a b (as_value a) (as_value b) ≡ true
      → same_array value_eq same a b o p ≡ true
  unfolding same_array
  after_arrays a b none p no_arrays h = h
  after_arrays a b (some m) none no_arrays h = h
  after_arrays a b (some m) (some n) no_arrays h = cc

  after_values :
      (a b : ContextValue) (o p : Option Value)
      → is_some o && is_some p ≡ false
      → same_object value_eq same a b (keys_of a) (keys_of b) ≡ true
      → same_value value_eq same a b o p ≡ true
  unfolding same_value
  after_values a b none p no_values h = h
  after_values a b (some v) none no_values h = h
  after_values a b (some v) (some w) no_values h = cc

  mutual
    unfolding same_array same_value same_object

    Alike-equivalent : (a b : ContextValue) → Alike value_eq a b → same a b ≡ true
    Alike-equivalent a b (arrays {n = n} e f each) =
        equivalent_lem value_eq a b
        ∙ rw
            (
              e,
              f,
              all_below-true (λ i. both_found same (index a i) (index b i)) 0 n
                  (λ i low. parts_same (index a i) (index b i) (each i (omega (arith, low)))),
            )
            (ground arith)
    Alike-equivalent a b (json no_arrays e f h) =
        equivalent_lem value_eq a b
        ∙ after_arrays a b (array_len a) (array_len b) no_arrays (rw (e, f) h)
    Alike-equivalent a b (objects {left = left} no_arrays no_values e f long each) =
        equivalent_lem value_eq a b
        ∙ after_arrays a b (array_len a) (array_len b) no_arrays (
            after_values a b (as_value a) (as_value b) no_values (
              rw
                (
                  e,
                  f,
                  long,
                  all_keys-true (λ k. both_found same (field_of a k) (field_of b k)) left
                      (λ k inside. parts_same (field_of a k) (field_of b k) (each k inside)),
                )
                (ground arith)))

    parts_same : (o p : Option ContextValue) → AlikeParts value_eq o p → both_found same o p ≡ true
    parts_same (some x) (some y) (both alike) = Alike-equivalent x y alike

  -- The comparison of two values is true exactly when they are alike, however deep they are.
  pub equivalent-Alike :
      (a b : ContextValue) → (equivalent value_eq a b ≡ true) ↔ Alike value_eq a b
  equivalent-Alike a b = (Alike-upto (suc (levels a)) a b (omega arith), Alike-equivalent a b)
