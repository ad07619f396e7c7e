-- ===== src/Core/Types/Order.antt =====
-- `compatible` is a preorder on the types that the registry accepts.
use mathlib.Core.Bool.{false≢true}
use zedflow.Base.{
  ◌≡◌, refl, ap, subst, true, ◌&&◌, String, some, arith, str_eq, eq_iff, List, inl, inr, Bool-cases,
  Option-cases, and→both,
}
use zedflow.Base.Outcome.{Outcome, ok, err}
use zedflow.Core.Diagnostic.{Diagnostic}
use zedflow.Core.Types.{
  DataType, Fields, boolean, number, text, list, record_of, media, named, no_fields, field,
  TypeRegistry, type_eq, fields_eq, get_field, accepts, accepts_fields, validate_type, compatible,
  is_ok,
}

mutual
  unfolding type_eq

  pub type_eq_sound : (s t : DataType) → type_eq s t ≡ true → s ≡ t
  type_eq_sound boolean boolean h = refl
  type_eq_sound number number h = refl
  type_eq_sound text text h = refl
  type_eq_sound (list s) (list t) h = ap list (type_eq_sound s t h)
  type_eq_sound (record_of fs) (record_of gs) h = ap record_of (fields_eq_sound fs gs h)
  type_eq_sound (media a) (media b) h = ap media ((eq_iff a b).0 h)
  type_eq_sound (named a) (named b) h = ap named ((eq_iff a b).0 h)
  type_eq_sound _ _ h = cc

  fields_eq_sound : (fs gs : Fields) → fields_eq fs gs ≡ true → fs ≡ gs
  fields_eq_sound no_fields no_fields h = refl
  fields_eq_sound (field j s fs) (field k t gs) h =
      let (a, rest) = and→both (str_eq j k && type_eq s t) (fields_eq fs gs) h in
      let (names, types) = and→both (str_eq j k) (type_eq s t) a in
      cc ((eq_iff j k).0 names, type_eq_sound s t types, fields_eq_sound fs gs rest)
  fields_eq_sound _ _ h = cc

-- A field that the target names is one of the source, at an accepted type.
field_of_target :
    (source target : Fields) (k : String) (t : DataType)
    → accepts_fields source target ≡ true
    → get_field target k ≡ some t
    → (s : DataType) × (get_field source k ≡ some s) × (accepts s t ≡ true)
unfolding accepts get_field
field_of_target source no_fields k t a e = cc
field_of_target source (field j u rest) k t a e =
    let (here, later) = and→both _ (accepts_fields source rest) a in
    elim (Bool-cases (str_eq j k)) [
      | inr other ↦ field_of_target source rest k t later (rw other at e)
      | inl same ↦
          let types : u ≡ t = ground (arith, same, e) in
          elim (Option-cases (get_field source j)) [
            | inl missing ↦ absurd (false≢true (rw missing at here))
            | inr (s, found) ↦ (
              s,
              subst (λ n. get_field source n ≡ some s) ((eq_iff j k).0 same) found,
              subst (λ x. accepts s x ≡ true) types (rw found at here),
            )
          ]
    ]

record_left :
    (s : DataType) (ts us : Fields)
    → ((fs : Fields) → accepts_fields fs ts ≡ true → accepts_fields fs us ≡ true)
    → accepts s (record_of ts) ≡ true
    → accepts s (record_of us) ≡ true
unfolding accepts type_eq
record_left (record_of fs) ts us k a = k fs a
record_left _ ts us k a = cc

list_left :
    (s t u : DataType)
    → ((r : DataType) → accepts r t ≡ true → accepts r u ≡ true)
    → accepts s (list t) ≡ true
    → accepts s (list u) ≡ true
unfolding accepts type_eq
list_left (list r) t u k a = k r a
list_left _ t u k a = cc

mutual
  unfolding accepts

  accepts_trans :
      (t u : DataType) (s : DataType) → accepts t u ≡ true → accepts s t ≡ true → accepts s u ≡ true
  accepts_trans (record_of ts) (record_of us) s b a =
      record_left s ts us (λ fs. accepts_fields_trans ts us fs b) a
  accepts_trans (list t) (list u) s b a = list_left s t u (λ r. accepts_trans t u r b) a
  accepts_trans t u s b a = subst (λ x. accepts s x ≡ true) (type_eq_sound t u b) a

  accepts_fields_trans :
      (ts us : Fields) (fs : Fields)
      → accepts_fields ts us ≡ true
      → accepts_fields fs ts ≡ true
      → accepts_fields fs us ≡ true
  accepts_fields_trans ts no_fields fs b a = refl
  accepts_fields_trans ts (field k u rest) fs b a =
      let (here, later) = and→both _ (accepts_fields ts rest) b in
      elim (Option-cases (get_field ts k)) [
        | inl missing ↦ absurd (false≢true (rw missing at here))
        | inr (t, found) ↦
            let (s, e, st) = field_of_target fs ts k t a found in
            rw (e, accepts_trans t u s (rw found at here) st)
              (accepts_fields_trans ts rest fs later a)
      ]

is_ok-eq-ok : (o : Outcome (List Diagnostic) (Unit {0})) → is_ok o ≡ true → o ≡ ok tt
is_ok-eq-ok (ok tt) h = refl
is_ok-eq-ok (err e) h = cc

pub compatible_parts :
    (source target : DataType) (types : TypeRegistry)
    → compatible source target types ≡ true
    → (validate_type source types ≡ ok tt)
      × (validate_type target types ≡ ok tt)
      × (accepts source target ≡ true)
unfolding compatible
compatible_parts source target types c =
    let (valid, a) =
      and→both (is_ok (validate_type source types) && is_ok (validate_type target types))
        (accepts source target) c in
    let (left, right) =
      and→both (is_ok (validate_type source types)) (is_ok (validate_type target types)) valid in
    (is_ok-eq-ok _ left, is_ok-eq-ok _ right, a)

-- If a type is compatible with a second, and the second with a third, then the first is with the third.
pub compatible_trans :
    (source middle target : DataType) (types : TypeRegistry)
    → compatible source middle types ≡ true
    → compatible middle target types ≡ true
    → compatible source target types ≡ true
unfolding compatible
compatible_trans source middle target types c d =
    let (first, _, a) = compatible_parts source middle types c in
    let (_, last, b) = compatible_parts middle target types d in
    rw (first, last, accepts_trans middle target source b a) refl
