-- ===== src/Context/Check/Recursion.antt =====
-- rust/crates/zf-context/src/context.rs: `Checker::predicate` and `Checker::function`, and the
-- recursion of the checker, on 65 less the source's depth, as is `depth` itself.
use zedflow.Base.{
  ℕ, zero, suc, String, ◌<>◌, Bool, true, false, not, ◌||◌, Option, none, some, [], ◌∷◌,
  if◌then◌else◌, length, ◌==◌,
}
use zedflow.Base.Text.{decimal}
use zedflow.Base.Maps.{Map}
use zedflow.Core.Types.{DataType, type_eq}
use zedflow.Context.Language
use zedflow.Context.Language.{
  ContextExpr, Exprs, NamedExprs, no_exprs, expr, no_named, ContextPredicate, ContextPredicates,
  no_predicates, Comparison, MeasureUnit, LibraryKind, projection, subprogram, ContextFunction,
  ContextLibrary, function_of,
}
use zedflow.Context.Language.Template.{valid_id}
use zedflow.Context.Check.{
  Subject, FunctionKey, Checker, Check, answer, ◌>>=◌, ◌>>◌, Typing, error, error_if, depth,
  data_type, resolved, resolves_to, mismatched, has_key, without_key,
}
use zedflow.Context.Check.Terms.{type_node}
use zedflow.Context.Check.Terms.Names.{error_at}

abbrev kind_text : LibraryKind → String
kind_text projection = "Projection"
kind_text subprogram = "Subprogram"

module _ (given : Subject) where
  module _ (eval : ContextExpr → String → Typing)
      (test : ContextPredicate → String → Check (Unit {0}))
      (function : LibraryKind → String → String → Typing) where
    abbrev incomparable : Comparison → Option DataType → Option DataType → Bool
    incomparable Comparison.ne (some left) (some right) = not (type_eq left right)
    incomparable operator (some left) (some right) =
        not (type_eq left right) || not (resolves_to given DataType.number left)
    incomparable operator _ _ = false

    abbrev searchable : DataType → DataType → Bool
    searchable DataType.text item = type_eq item DataType.text
    searchable (DataType.list expected) item = type_eq expected item
    searchable t item = false

    abbrev unsearchable : Option DataType → Option DataType → Bool
    unsearchable (some t) (some item) = not (searchable t item)
    unsearchable _ _ = false

    abbrev resolved_of : Option DataType → Option DataType
    resolved_of none = none
    resolved_of (some t) = resolved given t

    abbrev no_conditions : ContextPredicates → Bool
    no_conditions no_predicates = true
    no_conditions (Language.predicate p ps) = false

    unfoldable pub test_each : ContextPredicates → ℕ → String → Check (Unit {0})
    test_each no_predicates i path = answer tt
    test_each (Language.predicate p ps) i path =
        test p (path <> ".items[" <> decimal i <> "]") >> test_each ps (suc i) path

    unfoldable pub test_group : ContextPredicates → String → Check (Unit {0})
    test_group ps path =
        error_if (no_conditions ps) "empty_predicate" path
          "Boolean groups require at least one condition"
        >> test_each ps 0 path

    -- The arms of `predicate`.
    unfoldable pub test_node : ContextPredicate → String → Check (Unit {0})
    test_node (ContextPredicate.compare left operator right) path =
        eval left (path <> ".left") >>= λ a. eval right (path <> ".right") >>= λ b.
        error_if (incomparable operator a b) "comparison_type" path
          "Ordering requires identical numeric types; inequality requires identical types"
    test_node (ContextPredicate.contains value item) path = eval value (path <> ".value") >>= λ a.
        eval item (path <> ".item") >>= λ b.
        error_if (unsearchable (resolved_of a) b) "contains_type" path
          "Contains requires text/text or a list and its exact item type"
    test_node (ContextPredicate.present value) path = eval value (path <> ".value") >> answer tt
    test_node (ContextPredicate.eq left right) path = eval left (path <> ".left") >>= λ a.
        eval right (path <> ".right") >>= λ b.
        error_if (incomparable Comparison.ne a b) "comparison_type" path
          "Equality requires identical types; there is no coercion"
    test_node (ContextPredicate.and ps) path = test_group ps path
    test_node (ContextPredicate.or ps) path = test_group ps path
    test_node (ContextPredicate.negate p) path = test p (path <> ".item")

    -- The parameters of a function, in a loop.
    unfoldable pub check_parameters : Map DataType → String → Check (Unit {0})
    check_parameters [] path = answer tt
    check_parameters ((name, t) ∷ rest) path =
        error_if (not (valid_id name)) "variable_name" path "Invalid parameter name"
        >> data_type given t path
        >> check_parameters rest path

    -- The body is checked with the parameters alone in scope.
    unfoldable pub in_body : {A : Type 0} → Map DataType → Check A → Check A
    in_body parameters m before =
        let (a, c) = m (record before { variables = parameters; in_function = true }) in
        (a, record c { variables = before.variables; in_function = before.in_function })

    unfoldable pub check_body : FunctionKey → ContextFunction → String → Typing
    check_body (catalog, name) f path =
        (λ (c : Checker).
          (tt, record c { functions_active = (catalog, name) ∷ c.functions_active }))
        >> error_if (not (valid_id name)) "function_name" path "Invalid context function name"
        >> check_parameters f.parameters path
        >> data_type given f.output path
        >> in_body f.parameters (
            eval f.body ("library." <> kind_text catalog <> "." <> name <> ".body") >>= λ actual.
            error_at (λ t. mismatched given t f.output) actual "function_output" path
              "Function body does not match its declared output type")
        >> (λ (c : Checker). (
          some f.output,
          record c {
            functions_active = without_key given c.functions_active (catalog, name);
            functions_done = (catalog, name) ∷ c.functions_done;
          },
        ))

    unfoldable pub known_function : FunctionKey → ContextFunction → String → Typing
    known_function (catalog, name) f path c =
        if has_key given c.functions_active (catalog, name)
        then (error "function_cycle" path ("Recursive context function: " <> name) >> answer none) c
        else if has_key given c.functions_done (catalog, name)
        then (some f.output, c)
        else check_body (catalog, name) f path c

    abbrev has_functions : ContextLibrary → Bool
    has_functions library =
        not (length library.projections == 0) || not (length library.subprograms == 0)

    -- `function`, once its depth was entered.
    unfoldable pub function_node : LibraryKind → String → String → Typing
    function_node catalog name path = elim (function_of given.library catalog name) [
      | none ↦
          error_if (given.linked || has_functions given.library) "unknown_function" path
            ("Unknown " <> kind_text catalog <> ": " <> name)
          >> answer none
      | some f ↦ known_function (catalog, name) f path
    ]

  unfoldable mutual
    -- `Checker::expression`, `predicate` and `function`
    pub check_expression : ℕ → ContextExpr → String → Typing
    check_expression zero e path = depth given zero path >> answer none
    check_expression (suc left) e path = depth given (suc left) path >>= λ inside.
        if inside
        then type_node given (check_expression left) (check_predicate left) (check_function left) e
            path
        else answer none

    pub check_predicate : ℕ → ContextPredicate → String → Check (Unit {0})
    check_predicate zero p path = depth given zero path >> answer tt
    check_predicate (suc left) p path = depth given (suc left) path >>= λ inside.
        if inside
        then test_node (check_expression left) (check_predicate left) (check_function left) p path
        else answer tt

    pub check_function : ℕ → LibraryKind → String → String → Typing
    check_function zero catalog name path = depth given zero path >> answer none
    check_function (suc left) catalog name path = depth given (suc left) path >>= λ inside.
        if inside
        then function_node (check_expression left) (check_predicate left) (check_function left)
            catalog name path
        else answer none
