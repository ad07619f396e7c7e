-- ===== src/Context/Check/Terms.antt =====
-- rust/crates/zf-context/src/context.rs: the arms of `Checker::expression`, by the recursive
-- calls `eval`, `test` and `function`.
pub mod Names
use zedflow.Context.Check.Terms.Names.{
  error_at, is_list, is_media_type, is_key, texts_eq, part_names, argument_names, with_variable,
}
use zedflow.Base.{
  ℕ, suc, String, ◌<>◌, Bool, true, false, not, ◌&&◌, Option, none, some, List, [], ◌∷◌,
  if◌then◌else◌, str_eq, length, ◌==◌,
}
use zedflow.Base.Outcome.{Outcome, ok, err}
use zedflow.Base.Text.{decimal}
use zedflow.Base.Maps
use zedflow.Base.Maps.{Map, keys}
use zedflow.Base.Sets
use zedflow.Base.Sets.{Set}
use zedflow.Core.Diagnostic.{Diagnostic}
use zedflow.Core.Types.{DataType, Fields, get_field, compatible}
use zedflow.Core.Values.{validate_value}
use zedflow.Context.Language
use zedflow.Context.Language.{
  ContextExpr, Exprs, NamedExprs, no_exprs, expr, no_named, ContextPredicate, ContextPredicates,
  no_predicates, Comparison, MeasureUnit, LibraryKind, projection, subprogram, ContextFunction,
  ContextLibrary, function_of,
}
use zedflow.Context.Language.Template.{TemplatePart, valid_id, Parts, template_parts}
use zedflow.Context.Check.{
  Subject, Checker, Check, answer, ◌>>=◌, ◌>>◌, Typing, typed, error, error_if, append, data_type,
  resolved, resolves_to, mismatched, to_fields,
}

module _ (given : Subject) where
  -- What `validate_value` reports; it always has an outcome.
  unfoldable pub reported :
      Option (Outcome (List Diagnostic) (Unit {0})) → String → Check (Unit {0})
  reported (some (err es)) path c = (tt, append given es path c)
  reported _ path c = (tt, c)

  -- The `match` on the resolved type of a collection
  unfoldable pub listed : Option DataType → String → Typing
  listed none path = answer none
  listed (some (DataType.list t)) path = answer (some t)
  listed (some t) path =
      error "collection_type" path "Collection operation requires a list" >> answer none

  -- The type of `Map`, `Sort`, `GroupBy` and `Dedup`, from that of the items and of the body.
  unfoldable pub keyed_type : ContextExpr → DataType → DataType → DataType
  keyed_type (ContextExpr.map _ _ _) t result = result
  keyed_type (ContextExpr.group_by _ _ _) t result =
      DataType.record_of (to_fields (("items", DataType.list t) ∷ ("key", result) ∷ []))
  keyed_type _ t result = t

  abbrev is_sort : ContextExpr → Bool
  is_sort (ContextExpr.sort _ _ _ _) = true
  is_sort _ = false

  unfoldable pub measurable : MeasureUnit → DataType → Bool
  measurable MeasureUnit.bytes t = true
  measurable MeasureUnit.entries t = is_list (some t)
  measurable MeasureUnit.media (DataType.media m) = true
  measurable MeasureUnit.media (DataType.list t) = is_media_type (resolved given t)
  measurable MeasureUnit.media _ = false

  unfoldable pub found_type : String → String → String → Option DataType → Typing
  found_type code path message (some t) = answer (some t)
  found_type code path message none = error code path message >> answer none

  -- The `match` on the resolved type of which a field is read
  unfoldable pub field_in : Option DataType → String → String → Typing
  field_in none name path = answer none
  field_in (some (DataType.record_of fs)) name path =
      found_type "unknown_field" path ("Field is not declared: " <> name) (get_field fs name)
  field_in (some t) name path =
      error "field_type" path "Field access requires a record" >> answer none

  -- The loop over the fields of a projection.
  unfoldable pub project_types : Fields → List String → Map DataType → String → Check (Map DataType)
  project_types fs [] output path = answer output
  project_types fs (name ∷ names) output path = elim (get_field fs name) [
    | none ↦
        error "unknown_field" path ("Field is not declared: " <> name)
        >> project_types fs names output path
    | some t ↦
        error_if (Maps.contains_key output name) "projection_fields" path
          ("Duplicate field: " <> name)
        >> project_types fs names (Maps.insert output name t) path
  ]

  -- The `match` on the resolved type of which fields are selected
  unfoldable pub project_in : Option DataType → List String → String → Typing
  project_in none names path = answer none
  project_in (some (DataType.record_of fs)) names path =
      error_if (length names == 0) "projection_fields" path "Select at least one field"
      >> project_types fs names [] path
      >>= λ output. answer (some (DataType.record_of (to_fields output)))
  project_in (some t) names path =
      error "projection_type" path "Projection requires a record" >> answer none

  -- The fuel of `template_parts` does not run out, so the last clause is never met.
  unfoldable pub parts_error : Parts → NamedExprs → String → Check (Unit {0})
  parts_error (some (ok parts)) values path =
      error_if (not (texts_eq (part_names parts) (argument_names values))) "template_arguments" path
        "Template placeholders and arguments must match exactly"
  parts_error (some (err message)) values path = error "template_syntax" path message
  parts_error none values path = answer tt

  module _ (eval : ContextExpr → String → Typing)
      (test : ContextPredicate → String → Check (Unit {0}))
      (function : LibraryKind → String → String → Typing) where
    -- `Checker::collection_item`
    unfoldable pub collection_item : ContextExpr → String → String → Typing
    collection_item value name path =
        error_if (not (valid_id name)) "variable_name" path "Invalid collection variable name"
        >> typed (eval value path) (λ source. listed (resolved given source) path)

    unfoldable pub keyed_check : ContextExpr → ContextExpr → String → ContextExpr → String → Typing
    keyed_check whole source name body path = typed (collection_item source name path) λ t.
        typed (with_variable name t (eval body (path <> ".body"))) λ result.
          error_if (is_sort whole && not (is_key (resolved given result))) "sort_type" path
            "Sort keys must be text or numbers"
          >> answer (some (DataType.list (keyed_type whole t result)))

    unfoldable pub record_types : NamedExprs → Map DataType → String → Check (Map DataType)
    record_types no_named output path = answer output
    record_types (Language.named name e es) output path = eval e (path <> "." <> name) >>= λ o.
        record_types es (elim o [ none ↦ output | some t ↦ Maps.insert output name t ]) path

    unfoldable pub type_items : DataType → Exprs → ℕ → String → Check (Unit {0})
    type_items t no_exprs i path = answer tt
    type_items t (expr e es) i path =
        let here = path <> ".items[" <> decimal i <> "]" in
        eval e here >>= λ o.
        error_at (λ actual. mismatched given actual t) o "list_item_type" here
          "List element is incompatible with its declared item type"
        >> type_items t es (suc i) path

    unfoldable pub check_values : NamedExprs → String → Check (Unit {0})
    check_values no_named path = answer tt
    check_values (Language.named name e es) path = eval e (path <> "." <> name) >>= λ o.
        error_at (λ t. not (resolves_to given DataType.text t)) o "template_type" path
          "Template arguments must be text; use to_json explicitly for other types"
        >> check_values es path

    abbrev argument_bad : Option DataType → Option DataType → Bool
    argument_bad (some actual) (some expected) = mismatched given actual expected
    argument_bad _ _ = false

    abbrev parameter : Option ContextFunction → String → Option DataType
    parameter none name = none
    parameter (some f) name = Maps.get f.parameters name

    unfoldable pub check_arguments : Option ContextFunction → NamedExprs → String → Check (Unit {0})
    check_arguments f no_named path = answer tt
    check_arguments f (Language.named name e es) path =
        eval e (path <> ".arguments." <> name) >>= λ o.
        error_if (argument_bad o (parameter f name)) "function_argument_type" path
          "Function argument has an incompatible type"
        >> check_arguments f es path

    unfoldable pub resource_type : String → String → Typing
    resource_type name path c =
        if c.in_function
        then (error "function_resource" path
                "Functions receive explicit parameters; ambient resources are unavailable"
              >> answer none)
            c
        else found_type "undeclared_resource" path ("Resource is not declared: " <> name)
            (Maps.get given.requirements name) c

    unfoldable pub variable_type : String → String → Typing
    variable_type name path c =
        found_type "unknown_variable" path ("Variable is not in scope: " <> name)
          (Maps.get c.variables name) c

    abbrev constructible : Option DataType → Option DataType → Bool
    constructible (some actual) (some expected) = not (compatible actual expected given.types)
    constructible _ _ = false

    -- The arms of `expression`.
    unfoldable pub type_node : ContextExpr → String → Typing
    type_node (ContextExpr.construct name value) path =
        data_type given (DataType.named name) path
        >> typed (eval value (path <> ".value")) λ actual.
          error_if (constructible (resolved given actual) (resolved given (DataType.named name)))
            "construct_type" path
            "Construction is incompatible with the named type; no implicit field conversion is available"
          >> answer (some (DataType.named name))
    type_node (ContextExpr.variable name) path = variable_type name path
    type_node (ContextExpr.literal t value) path =
        data_type given t path
        >> reported (validate_value given.debug t value given.types) path
        >> answer (some t)
    type_node (ContextExpr.filter value name condition) path =
        typed (collection_item value name path) λ t.
          with_variable name t (test condition (path <> ".condition"))
          >> answer (some (DataType.list t))
    type_node (ContextExpr.map value name body) path =
        keyed_check (ContextExpr.map value name body) value name body path
    type_node (ContextExpr.sort value name key descending) path =
        keyed_check (ContextExpr.sort value name key descending) value name key path
    type_node (ContextExpr.group_by value name key) path =
        keyed_check (ContextExpr.group_by value name key) value name key path
    type_node (ContextExpr.dedup value name key) path =
        keyed_check (ContextExpr.dedup value name key) value name key path
    type_node (ContextExpr.take value count) path = typed (eval value path) λ source.
        error_if (not (is_list (resolved given source))) "collection_type" path
          "Take requires a list"
        >> answer (some source)
    type_node (ContextExpr.truncate value count) path = typed (eval value path) λ source.
        error_if (not (resolves_to given DataType.text source)) "text_type" path
          "Truncate requires text"
        >> answer (some DataType.text)
    type_node (ContextExpr.record_expr fields) path = record_types fields [] path >>= λ output.
        answer (some (DataType.record_of (to_fields output)))
    type_node (ContextExpr.list_expr t es) path =
        data_type given t (path <> ".itemType")
        >> type_items t es 0 path
        >> answer (some (DataType.list t))
    type_node (ContextExpr.template whole values) path =
        parts_error (template_parts whole) values path
        >> check_values values path
        >> answer (some DataType.text)
    type_node (ContextExpr.to_json value) path = eval value path >> answer (some DataType.text)
    type_node (ContextExpr.measure value unit) path = typed (eval value path) λ source.
        typed (answer (resolved given source)) λ t.
          error_if (not (measurable unit t)) "measure_type" path
            "Measurement unit is incompatible with its value"
          >> answer (some DataType.number)
    type_node (ContextExpr.call catalog name arguments) path =
        function catalog name path >>= λ output.
        error_at
          (λ (f : ContextFunction). not (texts_eq (keys f.parameters) (argument_names arguments)))
          (function_of given.library catalog name) "function_arguments" path
          "Function argument names must match its parameters"
        >> check_arguments (function_of given.library catalog name) arguments path
        >> answer output
    type_node (ContextExpr.resource name) path = resource_type name path
    type_node (ContextExpr.field value name) path =
        typed (eval value (path <> ".value")) λ source. field_in (resolved given source) name path
    type_node (ContextExpr.project value names) path =
        typed (eval value (path <> ".value"))
          λ source. project_in (resolved given source) names path
