-- ===== src/Base/Maps.antt =====
-- `BTreeMap<String, V>` as a list of entries in the order of their keys, which is the order in
-- which the source iterates over it.
use Prim.Native.Nat.{Ordering}
use Prim.Native.String.{String, compare}
use mathlib.Core.Path.{◌≡◌, refl, sym, subst, ◌∙◌}
use mathlib.Core.Logic.{◌⊎◌, inl, inr}
use text.Mathlib.TextPositions.{eq_refl}
use mathlib.Core.Bool.{Bool, false}
use mathlib.Core.Option.{Option, none, some}
use mathlib.Core.List.{List, [], ◌∷◌}
use native.Mathlib.Omega.{arith}
use text.Mathlib.Text.{◌==◌ as str_eq}
use text.Mathlib.TextEquality.{eq_iff, path_by_compare}
use zedflow.Base.Tests.{if◌then◌else◌, is_some, Bool-cases}
use zedflow.Base.Lists.{All}

abbrev pub Map {ℓ} : Type ℓ → Type ℓ
Map V = List (String × V)

module _ {ℓ} {V : Type ℓ} where
  -- `map.get(key)`
  unfoldable pub get : Map V → String → Option V
  get [] k = none
  get ((j, v) ∷ m) k = if str_eq j k then some v else get m k

  -- `map.contains_key(key)`
  abbrev pub contains_key : Map V → String → Bool
  contains_key m k = is_some (get m k)

  -- `map.insert(key, value)`
  unfoldable pub insert : Map V → String → V → Map V
  insert [] k v = (k, v) ∷ []
  insert ((j, w) ∷ m) k v = elim (compare j k) [
    | Ordering.lt ↦ (j, w) ∷ insert m k v
    | Ordering.eq ↦ (k, v) ∷ m
    | Ordering.gt ↦ (k, v) ∷ (j, w) ∷ m
  ]

  -- `map.remove(key)`
  unfoldable pub erase : Map V → String → Map V
  erase [] k = []
  erase ((j, w) ∷ m) k = if str_eq j k then erase m k else (j, w) ∷ erase m k

  -- `map.keys()`
  abbrev pub keys : Map V → List String
  keys [] = []
  keys ((j, v) ∷ m) = j ∷ keys m

  -- `map.values()`
  abbrev pub values : Map V → List V
  values [] = []
  values ((j, v) ∷ m) = v ∷ values m

  -- An inserted key has the new value, and every other key the value that it had.
  pub get-insert :
      (m : Map V) (k j : String) (v : V)
      → get (insert m k v) j ≡ (if str_eq k j then some v else get m j)
  unfolding get insert
  get-insert [] k j v = refl
  get-insert ((i, w) ∷ m) k j v =
      ground (arith, eq_iff k j, eq_iff i k, eq_iff i j, get-insert m k j v, path_by_compare i k)

  pub get-erase :
      (m : Map V) (k j : String) → get (erase m k) j ≡ (if str_eq k j then none else get m j)
  unfolding get erase
  get-erase [] k j = ground arith
  get-erase ((i, w) ∷ m) k j = ground (arith, eq_iff k j, eq_iff i k, eq_iff i j, get-erase m k j)

  pub get-insert-other :
      (m : Map V) (k j : String) (v : V) → str_eq k j ≡ false → get (insert m k v) j ≡ get m j
  get-insert-other m k j v e = get-insert m k j v ∙ rw e refl

  pub get-insert-same : (m : Map V) (k : String) (v : V) → get (insert m k v) k ≡ some v
  get-insert-same m k v = get-insert m k k v ∙ rw (eq_refl k) refl

  -- What is found after an insertion is the new entry or an older one.
  pub get-insert-cases :
      (m : Map V) (k j : String) (v w : V)
      → get (insert m k v) j ≡ some w
      → (k ≡ j) × (v ≡ w) ⊎ (str_eq k j ≡ false) × (get m j ≡ some w)
  get-insert-cases m k j v w h = elim (Bool-cases (str_eq k j)) [
    | inl e ↦
        let same = (eq_iff k j).0 e in
        let new = subst (λ z. get (insert m k v) z ≡ some v) same (get-insert-same m k v) in
        inl (same, cc)
    | inr e ↦ inr (e, sym (get-insert-other m k j v e) ∙ h)
  ]

  pub get-single : (k j : String) (v w : V) → get ((k, v) ∷ []) j ≡ some w → (k ≡ j) × (v ≡ w)
  unfolding get
  get-single k j v w = elim (Bool-cases (str_eq k j)) [
    | inl e ↦ rw e (λ h. ((eq_iff k j).0 e, cc))
    | inr e ↦ rw e (λ h. cc)
  ]

  pub get-single-same : (k : String) (v : V) → get ((k, v) ∷ []) k ≡ some v
  unfolding get
  get-single-same k v = rw (eq_refl k) refl

  module _ (P : V → Type 0) where
    -- What holds of every value holds of the one that is found.
    pub All-get : (m : Map V) (k : String) (v : V) → All P (values m) → get m k ≡ some v → P v
    unfolding get
    All-get [] k v ps = λ h. cc
    All-get ((j, w) ∷ m) k v (p, ps) = elim (Bool-cases (str_eq j k)) [
      | inl e ↦ rw e (λ h. let same : w ≡ v = cc in subst P same p)
      | inr e ↦ rw e (All-get m k v ps)
    ]

    All-placed :
        (o : Ordering) (m m' : Map V) (j k : String) (w v : V)
        → P w
        → P v
        → All P (values m)
        → All P (values m')
        → All P (
            values (elim o [
              | Ordering.lt ↦ (j, w) ∷ m'
              | Ordering.eq ↦ (k, v) ∷ m
              | Ordering.gt ↦ (k, v) ∷ (j, w) ∷ m
            ]))
    All-placed Ordering.lt m m' j k w v q p ps ps' = (q, ps')
    All-placed Ordering.eq m m' j k w v q p ps ps' = (p, ps)
    All-placed Ordering.gt m m' j k w v q p ps ps' = (p, (q, ps))

    pub All-insert :
        (m : Map V) (k : String) (v : V) → All P (values m) → P v → All P (values (insert m k v))
    unfolding insert
    All-insert [] k v ps p = (p, tt)
    All-insert ((j, w) ∷ m) k v (q, ps) p =
        All-placed (compare j k) m (insert m k v) j k w v q p ps (All-insert m k v ps p)

    pub All-erase : (m : Map V) (k : String) → All P (values m) → All P (values (erase m k))
    unfolding erase
    All-erase [] k ps = tt
    All-erase ((j, w) ∷ m) k (p, ps) = elim (Bool-cases (str_eq j k)) [
      | inl e ↦ rw e (All-erase m k ps)
      | inr e ↦ rw e (p, All-erase m k ps)
    ]
