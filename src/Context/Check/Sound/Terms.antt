-- ===== src/Context/Check/Sound/Terms.antt =====
-- rust/crates/zf-context/src/context.rs: the arms of `Checker::expression` find types whose names
-- unfold, and name only resources that the strategy requires.
use zedflow.Base.{
  ℕ, suc, String, ◌<>◌, ◌≡◌, refl, Option, none, some, List, [], ◌∷◌, All, inl, inr, Option-cases,
}
use zedflow.Base.Maps
use zedflow.Base.Maps.{Map, values, All-get, All-insert}
use zedflow.Core.Types.{DataType, Fields, get_field}
use zedflow.Context.Language
use zedflow.Context.Language.{
  ContextExpr, Exprs, NamedExprs, no_exprs, expr, no_named, ContextPredicate, MeasureUnit,
  LibraryKind, ContextFunction, function_of,
}
use zedflow.Context.Evaluate.State.{Inputs}
use zedflow.Context.Evaluate.Runs.Required.{Requires, RequiresEach, RequiresNamed, RequiresTest}
use zedflow.Context.Check.{Subject, Check, Typing, resolved}
use zedflow.Context.Check.Terms.{
  found_type, listed, keyed_type, field_in, project_types, project_in, collection_item, keyed_check,
  record_types, type_items, check_values, check_arguments,
}
use zedflow.Context.Check.Grounded.{
  Found, IsGrounded, AreGrounded, resolved-Found, get_field-IsGrounded, to_fields-AreGrounded,
}
use zedflow.Context.Check.Sound.{Sound, sound-answer, sound-weaken, ◌⟫◌}
use zedflow.Context.Check.Sound.Reports.{sound-error, sound-error_if, sound-error_at, sound-typed}
use zedflow.Context.Check.Sound.Scopes.{sound-with_variable, sound-refused}

-- The required resources have types whose names unfold.
abbrev pub Required : Subject → Type 0
Required given = All (IsGrounded given.types) (values given.requirements)

abbrev pub Keeps : Inputs → Subject → (H : Type 0) → {A : Type 0} → (A → Type 0) → Check A → Type 0
Keeps inputs given H P m = Sound (Required given) inputs given H P m

pub of_found :
    (P : DataType → Type 0) {R : Type 0} (o : Option DataType) → Found (λ t. P t × R) o → R
of_found P none h = absurd h
of_found P (some t) h = h.1

pub with_found :
    (P : DataType → Type 0) {R : Type 0} (o : Option DataType)
    → Found P o
    → R
    → Found (λ t. P t × R) o
with_found P none h r = h
with_found P (some t) h r = (h, r)

module _ {inputs : Inputs} {given : Subject} {H : Type 0} where
  pub sound-found_type :
      {P : DataType → Type 0} (code path message : String) (o : Option DataType)
      → ((t : DataType) → H → o ≡ some t → P t)
      → Keeps inputs given H (Found P) (found_type given code path message o)
  unfolding found_type
  sound-found_type code path message none p = sound-refused _ _ _ none
  sound-found_type code path message (some t) p = sound-answer (some t) (λ h. p t h refl)

  sound-listed :
      (o : Option DataType) (path : String)
      → (H → Found (IsGrounded given.types) o)
      → Keeps inputs given H (Found (IsGrounded given.types)) (listed given o path)
  unfolding listed IsGrounded
  sound-listed none path known = sound-answer none known
  sound-listed (some (DataType.list t)) path known = sound-answer (some t) known
  sound-listed (some (DataType.record_of fs)) path known = sound-refused _ _ _ none
  sound-listed (some (DataType.media m)) path known = sound-refused _ _ _ none
  sound-listed (some (DataType.named name)) path known = sound-refused _ _ _ none
  sound-listed (some DataType.boolean) path known = sound-refused _ _ _ none
  sound-listed (some DataType.number) path known = sound-refused _ _ _ none
  sound-listed (some DataType.text) path known = sound-refused _ _ _ none

  pub sound-field_in :
      (o : Option DataType) (name path : String)
      → (H → Found (IsGrounded given.types) o)
      → Keeps inputs given H (Found (IsGrounded given.types)) (field_in given o name path)
  unfolding field_in IsGrounded
  sound-field_in none name path known = sound-answer none known
  sound-field_in (some (DataType.record_of fs)) name path known =
      sound-found_type _ _ _ (get_field fs name)
        λ t h found. get_field-IsGrounded given.types fs name t (known h) found
  sound-field_in (some (DataType.list t)) name path known = sound-refused _ _ _ none
  sound-field_in (some (DataType.media m)) name path known = sound-refused _ _ _ none
  sound-field_in (some (DataType.named n)) name path known = sound-refused _ _ _ none
  sound-field_in (some DataType.boolean) name path known = sound-refused _ _ _ none
  sound-field_in (some DataType.number) name path known = sound-refused _ _ _ none
  sound-field_in (some DataType.text) name path known = sound-refused _ _ _ none

module _ {inputs : Inputs} {given : Subject} where
  sound-project_types :
      (fs : Fields) (names : List String) {H : Type 0} (output : Map DataType) (path : String)
      → (H → AreGrounded given.types fs)
      → (H → All (IsGrounded given.types) (values output))
      → Keeps inputs given H
          (λ out. All (IsGrounded given.types) (values out))
          (project_types given fs names output path)
  unfolding project_types
  sound-project_types fs [] output path known made = sound-answer output made
  sound-project_types fs (name ∷ names) output path known made =
      elim (Option-cases (get_field fs name)) [
        | inl e ↦
            rw (e, project_types)
              (sound-error {P = λ _. Unit} _ _ _ ⟫ λ _.
                sound-project_types fs names output path (λ h. known h.0) (λ h. made h.0))
        | inr (t, e) ↦
            rw (e, project_types)
              (sound-error_if _ _ _ _ ⟫ λ _.
                sound-project_types fs names (Maps.insert output name t) path (λ h. known h.0)
                  λ h.
                    All-insert (IsGrounded given.types) output name t (made h.0)
                      (get_field-IsGrounded given.types fs name t (known h.0) e))
      ]

  pub sound-project_in :
      {H : Type 0} (o : Option DataType) (names : List String) (path : String)
      → (H → Found (IsGrounded given.types) o)
      → Keeps inputs given H (Found (IsGrounded given.types)) (project_in given o names path)
  unfolding project_in IsGrounded
  sound-project_in none names path known = sound-answer none known
  sound-project_in (some (DataType.record_of fs)) names path known =
      sound-error_if _ _ _ _
      ⟫ (λ _. sound-project_types fs names [] path (λ h. known h.0) (λ _. tt))
      ⟫ λ output. sound-answer _ (λ h. to_fields-AreGrounded given.types output h.1)
  sound-project_in (some (DataType.list t)) names path known = sound-refused _ _ _ none
  sound-project_in (some (DataType.media m)) names path known = sound-refused _ _ _ none
  sound-project_in (some (DataType.named n)) names path known = sound-refused _ _ _ none
  sound-project_in (some DataType.boolean) names path known = sound-refused _ _ _ none
  sound-project_in (some DataType.number) names path known = sound-refused _ _ _ none
  sound-project_in (some DataType.text) names path known = sound-refused _ _ _ none

-- The recursive calls that the arms make: they find types whose names unfold, in terms whose
-- resources are required.
pub record Calls (inputs : Inputs) (given : Subject) : Type 1 where
  pub eval : ContextExpr → String → Typing
  pub test : ContextPredicate → String → Check (Unit {0})
  pub function : LibraryKind → String → String → Typing
  pub sound_eval :
      (H : Type 0) (e : ContextExpr) (path : String)
      → Keeps inputs given H
          (Found (λ t. IsGrounded given.types t × Requires inputs e))
          (eval e path)
  pub sound_test :
      (H : Type 0) (p : ContextPredicate) (path : String)
      → Keeps inputs given H (λ _. RequiresTest inputs p) (test p path)
  pub sound_function :
      (H : Type 0) (kind : LibraryKind) (name path : String)
      → Keeps inputs given H (Found (IsGrounded given.types)) (function kind name path)

module _ (inputs : Inputs) (given : Subject) (calls : Calls inputs given) where
  pub sound-collection_item :
      {H : Type 0} (value : ContextExpr) (name path : String)
      → Keeps inputs given H
          (Found (λ t. IsGrounded given.types t × Requires inputs value))
          (collection_item given calls.eval calls.test calls.function value name path)
  unfolding collection_item
  sound-collection_item value name path = sound-error_if _ _ _ _ ⟫ λ _.
      sound-typed (calls.sound_eval _ value path) λ source.
        sound-weaken (λ h. h) (λ o h p. with_found (IsGrounded given.types) o p h.1.1)
          (sound-listed (resolved given source) path (λ h. resolved-Found given source h.1.0))

  pub sound-keyed_check :
      {H : Type 0} (whole source : ContextExpr) (name : String) (body : ContextExpr) (path : String)
      → ((t result : DataType)
          → IsGrounded given.types t
          → IsGrounded given.types result
          → IsGrounded given.types (keyed_type given whole t result))
      → Keeps inputs given H
          (Found (λ t. IsGrounded given.types t × (Requires inputs source × Requires inputs body)))
          (keyed_check given calls.eval calls.test calls.function whole source name body path)
  unfolding keyed_check IsGrounded
  sound-keyed_check whole source name body path made =
      sound-typed (sound-collection_item source name path) λ t.
        sound-typed
          (sound-with_variable name t (λ h. h.1.0) (calls.sound_eval _ body (path <> ".body")))
          λ result. sound-error_if _ _ _ _ ⟫ λ _.
            sound-answer _ (λ ((h, a), b). (made t result h.1.0 a.0, (h.1.1, a.1)))

  kept_type :
      (name : String) (o : Option DataType) (output : Map DataType) (R : Type 0)
      → All (IsGrounded given.types) (values output)
      → Found (λ t. IsGrounded given.types t × R) o
      → All
          (IsGrounded given.types)
          (values (elim o [ none ↦ output | some t ↦ Maps.insert output name t ]))
  kept_type name none output R h p = h
  kept_type name (some t) output R h p = All-insert (IsGrounded given.types) output name t h p.0

  pub sound-record_types :
      (es : NamedExprs) {H : Type 0} (output : Map DataType) (path : String)
      → (H → All (IsGrounded given.types) (values output))
      → Keeps inputs given H
          (λ out. All (IsGrounded given.types) (values out) × RequiresNamed inputs es)
          (record_types given calls.eval calls.test calls.function es output path)
  unfolding record_types Requires
  sound-record_types no_named output path made = sound-answer output (λ h. (made h, tt))
  sound-record_types (Language.named name e es) output path made =
      calls.sound_eval _ e (path <> "." <> name) ⟫ λ o.
      sound-weaken (λ h. h) (λ _ h p. (p.0, (of_found (IsGrounded given.types) o h.1, p.1)))
        (sound-record_types es _ path
          (λ h. kept_type name o output (Requires inputs e) (made h.0) h.1))

  pub sound-type_items :
      (es : Exprs) {H : Type 0} (t : DataType) (i : ℕ) (path : String)
      → Keeps inputs given H
          (λ _. RequiresEach inputs es)
          (type_items given calls.eval calls.test calls.function t es i path)
  unfolding type_items Requires
  sound-type_items no_exprs t i path = sound-answer tt (λ h. tt)
  sound-type_items (expr e es) t i path = calls.sound_eval _ e _ ⟫ λ o.
      sound-error_at _ _ _ _ _ ⟫ λ _.
      sound-weaken (λ h. h) (λ _ h p. (of_found (IsGrounded given.types) o h.0.1, p))
        (sound-type_items es t (suc i) path)

  pub sound-check_values :
      (es : NamedExprs) {H : Type 0} (path : String)
      → Keeps inputs given H
          (λ _. RequiresNamed inputs es)
          (check_values given calls.eval calls.test calls.function es path)
  unfolding check_values Requires
  sound-check_values no_named path = sound-answer tt (λ h. tt)
  sound-check_values (Language.named name e es) path = calls.sound_eval _ e _ ⟫ λ o.
      sound-error_at _ _ _ _ _ ⟫ λ _.
      sound-weaken (λ h. h) (λ _ h p. (of_found (IsGrounded given.types) o h.0.1, p))
        (sound-check_values es path)

  pub sound-check_arguments :
      (f : Option ContextFunction) (es : NamedExprs) {H : Type 0} (path : String)
      → Keeps inputs given H
          (λ _. RequiresNamed inputs es)
          (check_arguments given calls.eval calls.test calls.function f es path)
  unfolding check_arguments Requires
  sound-check_arguments f no_named path = sound-answer tt (λ h. tt)
  sound-check_arguments f (Language.named name e es) path = calls.sound_eval _ e _ ⟫ λ o.
      sound-error_if _ _ _ _ ⟫ λ _.
      sound-weaken (λ h. h) (λ _ h p. (of_found (IsGrounded given.types) o h.0.1, p))
        (sound-check_arguments f es path)
