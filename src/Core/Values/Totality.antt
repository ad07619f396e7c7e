-- ===== src/Core/Values/Totality.antt =====
-- A type that `validate_type` accepts resolves within 65 levels, so the check of a value against it
-- ends.
use zedflow.Base.{
  ℕ, zero, suc, is_some, ◌+◌, ◌≤◌, String, ◌<>◌, ◌≡◌, refl, true, false, Option, none, some, List,
  [], ◌∷◌, arith, leb, ltb, ◌==◌, contains, inl, inr, Bool-cases, snoc-ne-nil,
}
use zedflow.Base.Text.{is_blank}
use zedflow.Base.Maps
use zedflow.Base.Sets
use zedflow.Base.Maps.{Map}
use zedflow.Json.{Value, as_array, as_object}
use zedflow.Core.Values.{
  Report, both, check_items, at_member, finish, check_members, named_value, list_value,
  record_value, value_node, check_value, validate_value,
}
use zedflow.Base.Outcome.{Outcome, ok, err}
use zedflow.Core.Diagnostic.{Diagnostic}
use zedflow.Core.Types.{
  DataType, Fields, boolean, number, text, list, record_of, media, named, no_fields, field,
  TypeRegistry, max_depth, max_visited, Walk, push, over_budget, check_fields, check_named,
  check_node, check_type, validate_type, fresh, follow, or_errors,
}

abbrev pub AllFields : (DataType → Type 0) → Fields → Type 0
AllFields P no_fields = Unit
AllFields P (field name t rest) = P t × AllFields P rest

-- What one level asks of a type, where `P` is asked of the types that it refers to.
abbrev pub ResolvesNode : TypeRegistry → (DataType → Type 0) → DataType → Type 0
ResolvesNode types P (named name) =
    (is_blank name ≡ false) × ((t : DataType) × (Maps.get types name ≡ some t) × P t)
ResolvesNode types P (record_of fs) = AllFields P fs
ResolvesNode types P (list t) = P t
ResolvesNode types P (media m) = is_blank m ≡ false
ResolvesNode types P _ = Unit

-- Every reference is declared and not blank, and unfolding them all ends within `n` levels.
abbrev pub Resolves : TypeRegistry → ℕ → DataType → Type 0
Resolves types zero t = ⊥
Resolves types (suc n) t = ResolvesNode types (Resolves types n) t

-- If a walk ends with no error, then it began with none and has seen that `P` holds.
record Finds (P : Type 0) (w w' : Walk) : Type 0 where
  kept : w'.errors ≡ [] → w.errors ≡ []
  sound : w'.errors ≡ [] → w.visited ≤ max_visited → P × (w'.visited ≤ max_visited)

push-Finds : {P : Type 0} (d : Diagnostic) (w w' : Walk) → Finds P w (push d w')
push-Finds d w w' = record {
  kept = λ h. absurd (snoc-ne-nil w'.errors d h);
  sound = λ h. absurd (snoc-ne-nil w'.errors d h);
}

over_budget-Finds :
    {P : Type 0} (path : String) (w : Walk)
    → leb max_visited w.visited ≡ true
    → Finds P w (over_budget path w)
unfolding over_budget
over_budget-Finds path w h = elim (Bool-cases (w.visited == max_visited)) [
  | inl e ↦ rw e (push-Finds _ w (record w { visited = w.visited + 1 }))
  | inr e ↦ rw e (record { kept = λ k. k; sound = λ k l. absurd (ground arith) })
]

module _ (P : DataType → Type 0) (check : DataType → String → Walk → Walk)
    (step : (t : DataType) (path : String) (w : Walk) → Finds (P t) w (check t path w)) where
  check_fields-Finds :
      (fs : Fields) (path : String) (w : Walk)
      → Finds (AllFields P fs) w (check_fields check fs path w)
  unfolding check_fields
  check_fields-Finds no_fields path w = record { kept = λ h. h; sound = λ h l. (tt, l) }
  check_fields-Finds (field name t rest) path w =
      let first = step t (path <> "." <> name) w in
      let later = check_fields-Finds rest path (check t (path <> "." <> name) w) in
      elim (Bool-cases (ltb max_visited (check t (path <> "." <> name) w).visited)) [
        | inl e ↦
            rw e (record {
              kept = first.kept;
              sound = λ h l. absurd (ground (arith, first.sound h l));
            })
        | inr e ↦ rw e (record {
          kept = λ h. first.kept (later.kept h);
          sound = λ h l.
              let a = first.sound (later.kept h) l in
              let b = later.sound h a.1 in ((a.0, b.0), b.1);
        })
      ]

  follow-Finds :
      (name path : String) (o : Option DataType) (w : Walk)
      → Finds ((t : DataType) × (o ≡ some t) × P t) w (follow check name path o w)
  unfolding follow
  follow-Finds name path none w = push-Finds _ w w
  follow-Finds name path (some t) w =
      let here = step t path w in
      record { kept = here.kept; sound = λ h l. let a = here.sound h l in ((t, refl, a.0), a.1) }

  check_named-Finds :
      (types : TypeRegistry) (name path : String) (w : Walk)
      → Finds (ResolvesNode types P (named name)) w (check_named check types name path w)
  unfolding check_named
  check_named-Finds types name path w = elim (Bool-cases (is_blank name)) [
    | inl e ↦ rw e (push-Finds _ w w)
    | inr e ↦ rw e (elim (Bool-cases (contains w.visiting name)) [
      | inl c ↦ rw c (push-Finds _ w w)
      | inr c ↦
          let entered = record w { visiting = Sets.insert w.visiting name } in
          let inner = follow-Finds name path (Maps.get types name) entered in
          rw c (record {
            kept = inner.kept;
            sound = λ h l. let a = inner.sound h l in ((refl, a.0), a.1);
          })
    ])
  ]

  check_node-Finds :
      (types : TypeRegistry) (t : DataType) (path : String) (w : Walk)
      → Finds (ResolvesNode types P t) w (check_node check types t path w)
  unfolding check_node
  check_node-Finds types (named name) path w = check_named-Finds types name path w
  check_node-Finds types (record_of fs) path w = check_fields-Finds fs path w
  check_node-Finds types (list t) path w = step t (path <> "[]") w
  check_node-Finds types (media m) path w = elim (Bool-cases (is_blank m)) [
    | inl e ↦ rw e (push-Finds _ w w)
    | inr e ↦ rw e (record { kept = λ h. h; sound = λ h l. (refl, l) })
  ]
  check_node-Finds types _ path w = record { kept = λ h. h; sound = λ h l. (tt, l) }

check_type-Finds :
    (n : ℕ) (types : TypeRegistry) (t : DataType) (path : String) (w : Walk)
    → Finds (Resolves types n t) w (check_type n types t path w)
unfolding check_type
check_type-Finds zero types t path w = elim (Bool-cases (leb max_visited w.visited)) [
  | inl e ↦ rw e (over_budget-Finds path w e)
  | inr e ↦ rw e (push-Finds _ w (record w { visited = w.visited + 1 }))
]
check_type-Finds (suc n) types t path w = elim (Bool-cases (leb max_visited w.visited)) [
  | inl e ↦ rw e (over_budget-Finds path w e)
  | inr e ↦
      let inner =
        check_node-Finds (Resolves types n) (check_type n types) (check_type-Finds n types) types t
          path (record w { visited = w.visited + 1 }) in
      rw e (record { kept = inner.kept; sound = λ h l. inner.sound h (ground arith) })
]

or_errors-eq-ok : (ds : List Diagnostic) → or_errors ds ≡ ok tt → ds ≡ []
or_errors-eq-ok [] h = refl
or_errors-eq-ok (d ∷ ds) h = cc

-- Where `validate_type` accepts a type, each name that is met while the type is unfolded is declared
-- and not blank, each media type is not blank, and the unfolding ends within 65 levels; so no
-- declaration leads back to itself.
pub validate_type-Resolves :
    (t : DataType) (types : TypeRegistry)
    → validate_type t types ≡ ok tt
    → Resolves types (suc max_depth) t
unfolding validate_type
validate_type-Resolves t types h =
    ((check_type-Finds (suc max_depth) types t "$" fresh).sound (or_errors-eq-ok _ h)
      (omega arith)).0

some_of_both : (a b : Report) → is_some a ≡ true → is_some b ≡ true → is_some (both a b) ≡ true
some_of_both a b h k = ground arith

module _ (debug : DataType → String) (P : DataType → Type 0)
    (check : DataType → Value → String → Report)
    (total : (t : DataType) (v : Value) (path : String)
      → P t
      → is_some (check t v path) ≡ true) where
  check_items_total :
      (t : DataType) (vs : List Value) (i : ℕ) (path : String)
      → P t
      → is_some (check_items (check t) vs i path) ≡ true
  unfolding check_items
  check_items_total t [] i path h = refl
  check_items_total t (v ∷ vs) i path h =
      some_of_both _ _ (total t v _ h) (check_items_total t vs (i + 1) path h)

  at_member_total :
      (t : DataType) (o : Option Value) (path : String)
      → P t
      → is_some (at_member check t o path) ≡ true
  at_member_total t none path h = refl
  at_member_total t (some v) path h = total t v path h

  check_members_total :
      (fs : Fields) (m : Map Value) (path : String)
      → AllFields P fs
      → is_some (check_members check fs m path) ≡ true
  unfolding check_members
  check_members_total no_fields m path h = refl
  check_members_total (field name t rest) m path h =
      some_of_both _ _ (at_member_total t (Maps.get m name) _ h.0)
        (check_members_total rest m path h.1)

  list_value_total :
      (t : DataType) (o : Option (List Value)) (path : String)
      → P t
      → is_some (list_value debug check t o path) ≡ true
  unfolding list_value
  list_value_total t none path h = refl
  list_value_total t (some vs) path h = check_items_total t vs 0 path h

  record_value_total :
      (fs : Fields) (o : Option (Map Value)) (path : String)
      → AllFields P fs
      → is_some (record_value debug check fs o path) ≡ true
  unfolding record_value
  record_value_total fs none path h = refl
  record_value_total fs (some m) path h = check_members_total fs m path h

  value_node_total :
      (types : TypeRegistry) (t : DataType) (v : Value) (path : String)
      → ResolvesNode types P t
      → is_some (value_node debug check types t v path) ≡ true
  unfolding value_node
  value_node_total types (named name) v path (_, (t, e, h)) = rw (e, named_value) (total t v path h)
  value_node_total types (record_of fs) v path h = record_value_total fs (as_object v) path h
  value_node_total types (list t) v path h = list_value_total t (as_array v) path h
  value_node_total types (media m) v path h = ground arith
  value_node_total types boolean v path h = ground arith
  value_node_total types number v path h = ground arith
  value_node_total types text v path h = ground arith

check_value_total :
    (debug : DataType → String) (n : ℕ) (types : TypeRegistry) (t : DataType) (v : Value)
    (path : String)
    → Resolves types n t
    → is_some (check_value debug n types t v path) ≡ true
unfolding check_value
check_value_total debug zero types t v path h = absurd h
check_value_total debug (suc n) types t v path h =
    value_node_total debug (Resolves types n) (check_value debug n types)
      (check_value_total debug n types) types t v path h

finish_total :
    (o : Outcome (List Diagnostic) (Unit {0})) (r : Report)
    → (o ≡ ok tt → is_some r ≡ true)
    → is_some (finish o r) ≡ true
finish_total (err ds) r h = refl
finish_total (ok tt) none h = h refl
finish_total (ok tt) (some ds) h = refl

-- `validate_value` always has an outcome: the fuel of 65 levels that it takes is enough, since it
-- looks at the value only after the type has been accepted.
pub validate_value_total :
    (debug : DataType → String) (t : DataType) (v : Value) (types : TypeRegistry)
    → is_some (validate_value debug t v types) ≡ true
unfolding validate_value
validate_value_total debug t v types =
    finish_total (validate_type t types) _
      λ h. check_value_total debug (suc max_depth) types t v "$" (validate_type-Resolves t types h)
