-- ===== src/Core/Values/Flow.antt =====
-- What `compatible` promises: a value of the source type is a value of the target type.
use zedflow.Base.{
  ℕ, zero, suc, ◌+◌, String, ◌<>◌, ◌≡◌, refl, subst, true, Option, none, some, List, [], ◌∷◌, arith,
  str_eq, eq_iff, inl, inr, Bool-cases, Option-cases, and→both,
}
use zedflow.Base.Maps
use zedflow.Base.Maps.{Map}
use zedflow.Base.Outcome.{Outcome, ok, err}
use mathlib.Core.Bool.{false≢true}
use zedflow.Json.{Value, as_array, as_object}
use zedflow.Core.Diagnostic.{Diagnostic}
use zedflow.Core.Types.{
  DataType, Fields, list, record_of, no_fields, field, TypeRegistry, get_field, accepts,
  accepts_fields, max_depth, validate_type, compatible,
}
use zedflow.Core.Types.Order.{type_eq_sound, compatible_parts}
use zedflow.Core.Values.{
  Report, both, at_member, finish, check_items, check_members, list_value, record_value, value_node,
  check_value, validate_value,
}

both-eq-nil : (a b : Report) → both a b ≡ some [] → (a ≡ some []) × (b ≡ some [])
both-eq-nil none b h = cc
both-eq-nil (some a) none h = cc
both-eq-nil (some []) (some b) h = (refl, h)
both-eq-nil (some (x ∷ a)) (some b) h = cc

both_of_nil : (a b : Report) → a ≡ some [] → b ≡ some [] → both a b ≡ some []
both_of_nil a b h k = rw (h, k) refl

-- The check of a value finds nothing wrong.
abbrev Clean : Report → Type 0
Clean r = r ≡ some []

module _ (check : DataType → Value → String → Report) where
  check_items_mono :
      (s t : DataType)
      → ((v : Value) (path : String) → Clean (check s v path) → Clean (check t v path))
      → (vs : List Value) (i : ℕ) (path : String) → Clean (check_items (check s) vs i path)
      → Clean (check_items (check t) vs i path)
  unfolding check_items
  check_items_mono s t keep [] i path h = refl
  check_items_mono s t keep (v ∷ vs) i path h =
      let (here, later) = both-eq-nil _ _ h in
      both_of_nil _ _ (keep v _ here) (check_items_mono s t keep vs (i + 1) path later)

  -- A clean record has a clean value at each field that the type names.
  member_of_field :
      (fs : Fields) (m : Map Value) (path k : String) (s : DataType)
      → get_field fs k ≡ some s
      → Clean (check_members check fs m path)
      → Clean (at_member check s (Maps.get m k) (path <> "." <> k))
  unfolding get_field check_members
  member_of_field no_fields m path k s e h = cc
  member_of_field (field j t rest) m path k s e h =
      let (here, later) = both-eq-nil _ _ h in
      elim (Bool-cases (str_eq j k)) [
        | inl same ↦
            let types : t ≡ s = ground (arith, same, e) in
            subst (λ n. Clean (at_member check s (Maps.get m n) (path <> "." <> n)))
              ((eq_iff j k).0 same)
              (subst (λ u. Clean (at_member check u (Maps.get m j) (path <> "." <> j))) types here)
        | inr other ↦ member_of_field rest m path k s (rw other at e) later
      ]

  at_member_mono :
      (s t : DataType) (o : Option Value) (path : String)
      → ((v : Value) → Clean (check s v path) → Clean (check t v path))
      → Clean (at_member check s o path)
      → Clean (at_member check t o path)
  at_member_mono s t none path keep h = cc
  at_member_mono s t (some v) path keep h = keep v h

module _ (check : DataType → Value → String → Report)
    (keep : (s t : DataType)
      → accepts s t ≡ true
      → (v : Value) (path : String) → Clean (check s v path)
      → Clean (check t v path)) where
  check_members_mono :
      (source target : Fields) (m : Map Value) (path : String)
      → accepts_fields source target ≡ true
      → Clean (check_members check source m path)
      → Clean (check_members check target m path)
  unfolding accepts check_members
  check_members_mono source no_fields m path a h = refl
  check_members_mono source (field k t rest) m path a h =
      let (here, later) = and→both _ (accepts_fields source rest) a in
      elim (Option-cases (get_field source k)) [
        | inl e ↦ absurd (false≢true (rw e at here))
        | inr (s, e) ↦
            both_of_nil _ _
              (at_member_mono check s t (Maps.get m k) _ (λ v. keep s t (rw e at here) v _)
                (member_of_field check source m path k s e h))
              (check_members_mono source rest m path later h)
      ]

  list_value_mono :
      (debug : DataType → String) (s t : DataType) (o : Option (List Value)) (path : String)
      → accepts s t ≡ true
      → Clean (list_value debug check s o path)
      → Clean (list_value debug check t o path)
  unfolding list_value
  list_value_mono debug s t none path a h = cc
  list_value_mono debug s t (some vs) path a h = check_items_mono check s t (keep s t a) vs 0 path h

  record_value_mono :
      (debug : DataType → String) (fs gs : Fields) (o : Option (Map Value)) (path : String)
      → accepts_fields fs gs ≡ true
      → Clean (record_value debug check fs o path)
      → Clean (record_value debug check gs o path)
  unfolding record_value
  record_value_mono debug fs gs none path a h = cc
  record_value_mono debug fs gs (some m) path a h = check_members_mono fs gs m path a h

  value_node_mono :
      (debug : DataType → String) (types : TypeRegistry) (s t : DataType)
      → accepts s t ≡ true
      → (v : Value) (path : String) → Clean (value_node debug check types s v path)
      → Clean (value_node debug check types t v path)
  unfolding value_node accepts
  value_node_mono debug types (record_of fs) (record_of gs) a v path h =
      record_value_mono debug fs gs (as_object v) path a h
  value_node_mono debug types (list s) (list t) a v path h =
      list_value_mono debug s t (as_array v) path a h
  value_node_mono debug types s t a v path h =
      subst (λ u. Clean (value_node debug check types u v path)) (type_eq_sound s t a) h

check_value_mono :
    (debug : DataType → String) (types : TypeRegistry) (n : ℕ) (s t : DataType)
    → accepts s t ≡ true
    → (v : Value) (path : String) → Clean (check_value debug n types s v path)
    → Clean (check_value debug n types t v path)
unfolding check_value
check_value_mono debug types zero s t a v path h = cc
check_value_mono debug types (suc n) s t a v path h =
    value_node_mono (check_value debug n types) (check_value_mono debug types n) debug types s t a v
      path h

finish-eq-ok :
    (o : Outcome (List Diagnostic) (Unit {0})) (r : Report) → finish o r ≡ some (ok tt) → Clean r
finish-eq-ok (err ds) r h = cc
finish-eq-ok (ok tt) none h = cc
finish-eq-ok (ok tt) (some []) h = refl
finish-eq-ok (ok tt) (some (d ∷ ds)) h = cc

-- If a type is compatible with a target, then every value that is accepted at the type is accepted at
-- the target.
pub validate_value-compatible :
    (debug : DataType → String) (source target : DataType) (types : TypeRegistry) (v : Value)
    → compatible source target types ≡ true
    → validate_value debug source v types ≡ some (ok tt)
    → validate_value debug target v types ≡ some (ok tt)
unfolding validate_value
validate_value-compatible debug source target types v c h =
    let (_, valid, a) = compatible_parts source target types c in
    let clean =
      check_value_mono debug types (suc max_depth) source target a v "$"
        (finish-eq-ok (validate_type source types) _ h) in
    rw (valid, clean) refl
