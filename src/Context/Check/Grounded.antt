-- ===== src/Context/Check/Grounded.antt =====
-- rust/crates/zf-context/src/context.rs, `Checker::resolved`: the types whose names all unfold, as
-- `data_type` finds of the types that a strategy writes, and as every inferred type is.
use zedflow.Base.{
  ℕ, zero, suc, ◌≤◌, String, ◌≡◌, subst, inl, inr, Option, none, some, [], ◌∷◌, arith, str_eq, All,
  Bool-cases,
}
use zedflow.Base.Maps.{Map, values}
use zedflow.Base.Outcome.{ok}
use zedflow.Core.Types.{
  DataType, Fields, boolean, number, text, list, record_of, media, named, no_fields, field,
  get_field, TypeRegistry, max_depth, validate_type,
}
use zedflow.Core.Values.Totality.{AllFields, ResolvesNode, Resolves, validate_type-Resolves}
use zedflow.Context.Check.{Subject, resolve_upto, resolved, to_fields}

-- A result that was found, and what holds of it.
abbrev pub Found : (DataType → Type 0) → Option DataType → Type 0
Found P none = ⊥
Found P (some t) = P t

module _ (types : TypeRegistry) where
  unfoldable mutual
    pub IsGrounded : DataType → Type 0
    IsGrounded (named name) = Resolves types (suc max_depth) (named name)
    IsGrounded (list t) = IsGrounded t
    IsGrounded (record_of fs) = AreGrounded fs
    IsGrounded _ = Unit

    pub AreGrounded : Fields → Type 0
    AreGrounded no_fields = Unit
    AreGrounded (field name t fs) = IsGrounded t × AreGrounded fs

  fields_raise :
      (P Q : DataType → Type 0) (fs : Fields)
      → ((t : DataType) → P t → Q t)
      → AllFields P fs
      → AllFields Q fs
  fields_raise P Q no_fields f h = tt
  fields_raise P Q (field name t fs) f (h, hs) = (f t h, fields_raise P Q fs f hs)

  node_raise :
      (P Q : DataType → Type 0) (t : DataType)
      → ((u : DataType) → P u → Q u)
      → ResolvesNode types P t
      → ResolvesNode types Q t
  node_raise P Q (named name) f (e, (t, found, h)) = (e, (t, found, f t h))
  node_raise P Q (list t) f h = f t h
  node_raise P Q (record_of fs) f h = fields_raise P Q fs f h
  node_raise P Q (media m) f h = h
  node_raise P Q boolean f h = tt
  node_raise P Q number f h = tt
  node_raise P Q text f h = tt

  -- What unfolds within some levels unfolds within more.
  raise : (m n : ℕ) (t : DataType) → m ≤ n → Resolves types m t → Resolves types n t
  raise zero n t le h = absurd h
  raise (suc m) zero t le h = absurd (omega (arith, le))
  raise (suc m) (suc n) t le h =
      node_raise (Resolves types m) (Resolves types n) t (λ u. raise m n u (omega (arith, le))) h

  mutual
    unfolding IsGrounded

    grounded : (n : ℕ) (t : DataType) → n ≤ suc max_depth → Resolves types n t → IsGrounded t
    grounded zero t le h = absurd h
    grounded (suc n) (named name) le h = raise (suc n) (suc max_depth) (named name) le h
    grounded (suc n) (list t) le h = grounded n t (omega (arith, le)) h
    grounded (suc n) (record_of fs) le h = grounded_fields n fs (omega (arith, le)) h
    grounded (suc n) (media m) le h = tt
    grounded (suc n) boolean le h = tt
    grounded (suc n) number le h = tt
    grounded (suc n) text le h = tt

    grounded_fields :
        (n : ℕ) (fs : Fields) → n ≤ suc max_depth → AllFields (Resolves types n) fs → AreGrounded fs
    grounded_fields n no_fields le h = tt
    grounded_fields n (field name t fs) le (h, hs) = (grounded n t le h, grounded_fields n fs le hs)

  pub validate_type-IsGrounded : (t : DataType) → validate_type t types ≡ ok tt → IsGrounded t
  validate_type-IsGrounded t h =
      grounded (suc max_depth) t (omega arith) (validate_type-Resolves t types h)

  pub get_field-IsGrounded :
      (fs : Fields) (k : String) (t : DataType)
      → AreGrounded fs
      → get_field fs k ≡ some t
      → IsGrounded t
  unfolding get_field IsGrounded
  get_field-IsGrounded no_fields k t h = λ e. cc
  get_field-IsGrounded (field j u fs) k t (h, hs) = elim (Bool-cases (str_eq j k)) [
    | inl e ↦ rw e (λ found. let same : u ≡ t = cc in subst IsGrounded same h)
    | inr e ↦ rw e (get_field-IsGrounded fs k t hs)
  ]

  pub to_fields-AreGrounded :
      (m : Map DataType) → All IsGrounded (values m) → AreGrounded (to_fields m)
  unfolding IsGrounded
  to_fields-AreGrounded [] h = tt
  to_fields-AreGrounded ((k, t) ∷ m) (h, hs) = (h, to_fields-AreGrounded m hs)

module _ (given : Subject) where
  resolve_upto-Found :
      (n : ℕ) (t : DataType)
      → n ≤ suc max_depth
      → Resolves given.types n t
      → Found (IsGrounded given.types) (resolve_upto given n t)
  unfolding resolve_upto
  resolve_upto-Found zero t le h = absurd h
  resolve_upto-Found (suc n) (named name) le (_, (t, found, h)) =
      rw (found, resolve_upto) (resolve_upto-Found n t (omega (arith, le)) h)
  resolve_upto-Found (suc n) (list t) le h = grounded given.types (suc n) (list t) le h
  resolve_upto-Found (suc n) (record_of fs) le h = grounded given.types (suc n) (record_of fs) le h
  resolve_upto-Found (suc n) (media m) le h = grounded given.types (suc n) (media m) le h
  resolve_upto-Found (suc n) boolean le h = grounded given.types (suc n) boolean le h
  resolve_upto-Found (suc n) number le h = grounded given.types (suc n) number le h
  resolve_upto-Found (suc n) text le h = grounded given.types (suc n) text le h

  -- Where every name unfolds, `resolved` finds a type, which is such a type again.
  pub resolved-Found :
      (t : DataType) → IsGrounded given.types t → Found (IsGrounded given.types) (resolved given t)
  unfolding resolved resolve_upto IsGrounded
  resolved-Found (named name) h = resolve_upto-Found (suc max_depth) (named name) (omega arith) h
  resolved-Found (list t) h = h
  resolved-Found (record_of fs) h = h
  resolved-Found (media m) h = tt
  resolved-Found boolean h = tt
  resolved-Found number h = tt
  resolved-Found text h = tt
