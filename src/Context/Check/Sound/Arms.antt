-- ===== src/Context/Check/Sound/Arms.antt =====
-- rust/crates/zf-context/src/context.rs: each arm of `Checker::expression`.
use zedflow.Base.{String, ◌<>◌, ◌≡◌, refl, subst, none, some, true, [], if◌then◌else◌}
use zedflow.Base.Outcome.{ok, err}
use zedflow.Base.Maps
use zedflow.Base.Maps.{All-get, contains_key}
use zedflow.Core.Types.{DataType}
use zedflow.Context.Language.{ContextExpr, NamedExprs}
use zedflow.Context.Language.Template.{Parts, template_parts}
use zedflow.Context.Evaluate.State.{Inputs}
use zedflow.Context.Evaluate.Runs.Required.{Requires}
use zedflow.Context.Check.{Subject, Typing, answer, ◌>>◌, error, resolved}
use zedflow.Context.Check.Terms.{
  found_type, keyed_type, resource_type, variable_type, parts_error, type_node,
}
use zedflow.Context.Check.Grounded.{Found, IsGrounded, resolved-Found, to_fields-AreGrounded}
use zedflow.Context.Check.Sound.{sound-answer, sound-weaken, holding, ◌⟫◌}
use zedflow.Context.Check.Sound.Reports.{
  sound-error, sound-error_if, sound-error_at, sound-typed, sound-data_type, sound-reported,
}
use zedflow.Context.Check.Sound.Scopes.{sound-with_variable, sound-observe, sound-if, sound-refused}
use zedflow.Context.Check.Sound.Terms.{
  Keeps, Calls, of_found, with_found, sound-found_type, sound-field_in, sound-project_in,
  sound-collection_item, sound-keyed_check, sound-record_types, sound-type_items,
  sound-check_values, sound-check_arguments,
}

module _ (inputs : Inputs) (given : Subject) (same : given.requirements ≡ inputs.requirements)
    (calls : Calls inputs given) where
  abbrev Typed : ContextExpr → Type 0 → Typing → Type 0
  Typed e H m = Keeps inputs given H (Found (λ t. IsGrounded given.types t × Requires inputs e)) m

  sound-variable_type :
      {H : Type 0} (name path : String)
      → Typed
          (ContextExpr.variable name)
          H
          (variable_type given calls.eval calls.test calls.function name path)
  unfolding variable_type Requires
  sound-variable_type name path =
      sound-observe
        (λ c.
          found_type given "unknown_variable" path ("Variable is not in scope: " <> name)
            (Maps.get c.variables name))
        λ c.
          sound-found_type _ _ _ (Maps.get c.variables name) λ t h found.
            (All-get (IsGrounded given.types) c.variables name t h.1.variables found, tt)

  sound-resource_type :
      {H : Type 0} (name path : String)
      → Typed
          (ContextExpr.resource name)
          H
          (resource_type given calls.eval calls.test calls.function name path)
  unfolding resource_type Requires
  sound-resource_type name path =
      sound-observe
        (λ c c'.
          if c.in_function
          then (error "function_resource" path
                  "Functions receive explicit parameters; ambient resources are unavailable"
                >> answer none)
              c'
          else found_type given "undeclared_resource" path ("Resource is not declared: " <> name)
              (Maps.get given.requirements name) c')
        λ c. sound-if c.in_function (sound-refused _ _ _ none) (
          sound-found_type _ _ _ (Maps.get given.requirements name) λ t h found. (
            All-get (IsGrounded given.types) given.requirements name t h.0.1.ready found,
            subst (λ m. contains_key m name ≡ true) same (rw found refl),
          ))

  sound-parts_error :
      {H : Type 0} (o : Parts) (values : NamedExprs) (path : String)
      → Keeps inputs given H (λ _. Unit) (parts_error given o values path)
  unfolding parts_error
  sound-parts_error (some (ok parts)) values path =
      sound-weaken (λ h. h) (λ _ _ _. tt) (sound-error_if _ _ _ _)
  sound-parts_error (some (err message)) values path = sound-error {P = λ _. Unit} _ _ _
  sound-parts_error none values path = sound-answer tt (λ _. tt)

  pub sound-type_node :
      {H : Type 0} (e : ContextExpr) (path : String)
      → Typed e H (type_node given calls.eval calls.test calls.function e path)
  unfolding type_node Requires IsGrounded keyed_type
  sound-type_node (ContextExpr.construct name value) path =
      sound-data_type (DataType.named name) path ⟫ λ _.
      sound-typed (calls.sound_eval _ value _)
        λ actual. sound-error_if _ _ _ _ ⟫ λ _. sound-answer _ (λ h. (h.0.0.1, h.0.1.1))
  sound-type_node (ContextExpr.variable name) path = sound-variable_type name path
  sound-type_node (ContextExpr.literal t value) path =
      sound-data_type t path ⟫ (λ _. holding (sound-reported _ path)) ⟫ λ _.
      sound-answer _ (λ h. (h.1.0.1, tt))
  sound-type_node (ContextExpr.filter value name condition) path =
      sound-typed (sound-collection_item inputs given calls value name path) λ t.
        sound-with_variable name t (λ h. h.1.0) (calls.sound_test _ condition _) ⟫ λ _.
        sound-answer _ (λ h. (h.0.1.0, (h.0.1.1, h.1)))
  sound-type_node (ContextExpr.map value name body) path =
      sound-keyed_check inputs given calls _ value name body path (λ t r a b. b)
  sound-type_node (ContextExpr.sort value name key descending) path =
      sound-keyed_check inputs given calls _ value name key path (λ t r a b. a)
  sound-type_node (ContextExpr.group_by value name key) path =
      sound-keyed_check inputs given calls _ value name key path (λ t r a b. (a, (b, tt)))
  sound-type_node (ContextExpr.dedup value name key) path =
      sound-keyed_check inputs given calls _ value name key path (λ t r a b. a)
  sound-type_node (ContextExpr.take value count) path =
      sound-typed (calls.sound_eval _ value path)
        λ source. sound-error_if _ _ _ _ ⟫ λ _. sound-answer _ (λ h. h.0.1)
  sound-type_node (ContextExpr.truncate value count) path =
      sound-typed (calls.sound_eval _ value path)
        λ source. sound-error_if _ _ _ _ ⟫ λ _. sound-answer _ (λ h. (tt, h.0.1.1))
  sound-type_node (ContextExpr.record_expr fields) path =
      sound-record_types inputs given calls fields [] path (λ h. tt) ⟫ λ out.
      sound-answer _ (λ h. (to_fields-AreGrounded given.types out h.1.0, h.1.1))
  sound-type_node (ContextExpr.list_expr t es) path =
      sound-data_type t _ ⟫ (λ _. holding (sound-type_items inputs given calls es t 0 path)) ⟫ λ _.
      sound-answer _ (λ h. (h.1.0.1, h.1.1))
  sound-type_node (ContextExpr.template whole named_values) path =
      sound-parts_error (template_parts whole) named_values path
      ⟫ (λ _. sound-check_values inputs given calls named_values path)
      ⟫ λ _. sound-answer _ (λ h. (tt, h.1))
  sound-type_node (ContextExpr.to_json value) path = calls.sound_eval _ value path ⟫ λ o.
      sound-answer _ (λ h. (tt, of_found (IsGrounded given.types) o h.1))
  sound-type_node (ContextExpr.measure value unit) path =
      sound-typed (calls.sound_eval _ value path) λ source.
        sound-typed (sound-answer _ (λ h. resolved-Found given source h.1.0))
          λ t. sound-error_if _ _ _ _ ⟫ λ _. sound-answer _ (λ h. (tt, h.0.0.1.1))
  sound-type_node (ContextExpr.call catalog name arguments) path =
      calls.sound_function _ catalog name path ⟫ λ output.
      sound-error_at _ _ _ _ _
      ⟫ (λ _. holding (sound-check_arguments inputs given calls _ arguments path))
      ⟫ λ _. sound-answer _ (λ h. with_found (IsGrounded given.types) output h.0.1 h.1.1)
  sound-type_node (ContextExpr.resource name) path = sound-resource_type name path
  sound-type_node (ContextExpr.field value name) path =
      sound-typed (calls.sound_eval _ value _) λ source.
        sound-weaken (λ h. h) (λ o h p. with_found (IsGrounded given.types) o p h.1.1)
          (sound-field_in (resolved given source) name path
            (λ h. resolved-Found given source h.1.0))
  sound-type_node (ContextExpr.project value names) path =
      sound-typed (calls.sound_eval _ value _) λ source.
        sound-weaken (λ h. h) (λ o h p. with_found (IsGrounded given.types) o p h.1.1)
          (sound-project_in (resolved given source) names path
            (λ h. resolved-Found given source h.1.0))
