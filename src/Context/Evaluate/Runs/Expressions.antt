-- ===== src/Context/Evaluate/Runs/Expressions.antt =====
-- rust/crates/zf-context/src/context.rs: the evaluation of expressions and conditions keeps the
-- relation of the `Evaluator`, and always ends.
use zedflow.Base.{
  ℕ, zero, suc, String, inl, inr, true, false, Option, none, some, [], ltb, is_some_and, Bool-cases,
  arith,
}
use zedflow.Base.Outcome.{Outcome, ok, err}
use zedflow.Base.Text.{utf8_len, take_chars}
use zedflow.Core.Types.{DataType}
use zedflow.Context.Language
use zedflow.Context.Language.{
  ContextExpr, ContextPredicate, ContextPredicates, no_predicates, Comparison,
}
use zedflow.Context.Language.Template.{template_parts}
use zedflow.Context.Language.Template.Roundtrip.{template_parts_total}
use zedflow.Context.Evaluate.Values.{ContextValue, index, field_of, as_value, text_of, as_json}
use zedflow.Context.Evaluate.State.{AccessError, missing, invalid, Inputs, Outside, answer_with}
use zedflow.Context.Evaluate.Terms.{Eval, Test, same}
use zedflow.Context.Evaluate.Expressions.{
  expression_node, compared, search_items, contained, every, some_of, presence, predicate_node,
  expression, predicate, expr_count,
}
use zedflow.Context.Evaluate.Runs.{
  Safe, Runs-refl, safe-bind, safe-attempt, safe-pure, safe-or_invalid,
}
use zedflow.Context.Evaluate.Runs.Steps.{
  safe-error, safe-items, safe-bytes, safe-charge, safe-tick, safe-step,
}
use zedflow.Context.Evaluate.Runs.Required.{Requires, RequiresTest, RequiresTests, RequiresLibrary}
use zedflow.Context.Evaluate.Runs.Terms.{
  safe-variable_node, safe-found_field, safe-project_from, safe-resource_node,
}
use zedflow.Context.Evaluate.Runs.Collections.{
  safe-render, safe-or_stuck, safe-measure_node, safe-check_construct,
}
use zedflow.Context.Evaluate.Runs.Arms.{
  safe-keyed, safe-filtered, safe-each_named, safe-each_expr, safe-call,
}

module _ (given : Inputs) (outside : Outside) (n : ℕ) (eval : Eval) (test : Test)
    (safe-eval : (e : ContextExpr) (path : String) → Requires given e → Safe given n (eval e path))
    (safe-test : (p : ContextPredicate) (path : String)
      → RequiresTest given p
      → Safe given n (test p path))
    (library : RequiresLibrary given) where
  safe-expression_node :
      (e : ContextExpr) (path : String)
      → Requires given e
      → Safe given n (expression_node given outside eval test e path)
  unfolding expression_node Requires
  safe-expression_node (ContextExpr.construct name value) path required =
      safe-bind given n _ _ (safe-eval value path required) λ v.
        safe-bind given n _ _
          (safe-check_construct given outside n (DataType.named name) v (as_value v) path)
          λ _. safe-pure given n v
  safe-expression_node (ContextExpr.variable name) path required =
      safe-variable_node given outside n name
  safe-expression_node (ContextExpr.filter value name condition) path (first, later) =
      safe-bind given n _ _
        (safe-filtered given outside n eval test safe-eval safe-test library value name condition
          path first later)
        λ vs. safe-pure given n _
  safe-expression_node (ContextExpr.map value name body) path (first, later) =
      safe-keyed given outside n eval test safe-eval safe-test library _ value name body path first
        later
  safe-expression_node (ContextExpr.sort value name key descending) path (first, later) =
      safe-keyed given outside n eval test safe-eval safe-test library _ value name key path first
        later
  safe-expression_node (ContextExpr.group_by value name key) path (first, later) =
      safe-keyed given outside n eval test safe-eval safe-test library _ value name key path first
        later
  safe-expression_node (ContextExpr.dedup value name key) path (first, later) =
      safe-keyed given outside n eval test safe-eval safe-test library _ value name key path first
        later
  safe-expression_node (ContextExpr.take value count) path required =
      safe-bind given n _ _ (safe-eval value path required)
        λ v. safe-bind given n _ _ (safe-items given n v path) λ size. safe-pure given n _
  safe-expression_node (ContextExpr.truncate value count) path required =
      safe-bind given n _ _ (safe-eval value path required) λ v.
        safe-bind given n _ _ (safe-or_invalid given n (text_of v)) λ whole.
          safe-bind given n _ _ (safe-charge given n (utf8_len (take_chars count whole)) path)
            λ _. safe-pure given n _
  safe-expression_node (ContextExpr.record_expr named_fields) path required =
      safe-bind given n _ _
        (safe-each_named given outside n eval test safe-eval safe-test library named_fields [] path
          required)
        λ out. safe-pure given n _
  safe-expression_node (ContextExpr.list_expr t es) path required =
      elim (Bool-cases (ltb given.limits.max_items (expr_count es))) [
        | inl e ↦ rw e (safe-error given ContextValue n path _)
        | inr e ↦ rw e (
            safe-bind given n _ _
              (safe-each_expr given outside n eval test safe-eval safe-test library es 0 path
                required)
              λ vs. safe-pure given n _)
      ]
  safe-expression_node (ContextExpr.template whole named_values) path required =
      safe-bind given n _ _
        (safe-or_stuck given outside n (template_parts whole) (template_parts_total whole))
        λ parts.
          safe-bind given n _ _
            (safe-each_named given outside n eval test safe-eval safe-test library named_values []
              path required)
            λ arguments.
              safe-bind given n _ _ (safe-render given outside n parts arguments "" path) λ written.
                safe-bind given n _ _ (safe-charge given n (utf8_len written) path)
                  λ _. safe-pure given n _
  safe-expression_node (ContextExpr.to_json value) path required =
      safe-bind given n _ _ (safe-eval value path required) λ v.
        safe-bind given n _ _ (safe-bytes given outside.chunks n v path) λ _.
          safe-bind given n _ _ (safe-or_invalid given n (outside.encode (as_json v))) λ written.
            safe-bind given n _ _ (safe-charge given n (utf8_len written) path)
              λ _. safe-pure given n _
  safe-expression_node (ContextExpr.measure value unit) path required =
      safe-bind given n _ _ (safe-eval value path required) λ v.
        safe-bind given n _ _ (safe-measure_node given outside n unit v path)
          λ count. safe-pure given n _
  safe-expression_node (ContextExpr.call catalog name arguments) path required =
      safe-call given outside n eval test safe-eval safe-test library catalog name arguments path
        required
  safe-expression_node (ContextExpr.resource name) path required =
      safe-resource_node given outside n name path required
  safe-expression_node (ContextExpr.literal t value) path required = safe-pure given n _
  safe-expression_node (ContextExpr.field value name) path required =
      safe-bind given n _ _ (safe-eval value path required)
        λ v. safe-found_field given outside n name path (field_of v name)
  safe-expression_node (ContextExpr.project value names) path required =
      safe-bind given n _ _ (safe-eval value path required) λ v.
        safe-bind given n _ _ (safe-project_from given outside n v names [] path)
          λ selected. safe-pure given n _

  ordered :
      (operator : Comparison) (left right : ContextValue)
      → Safe given n (compared given outside eval test operator left right)
  unfolding compared
  ordered Comparison.ne left right = safe-pure given n _
  ordered Comparison.lt left right =
      safe-bind given n _ _ (safe-or_invalid given n _) λ order. safe-pure given n _
  ordered Comparison.lte left right =
      safe-bind given n _ _ (safe-or_invalid given n _) λ order. safe-pure given n _
  ordered Comparison.gt left right =
      safe-bind given n _ _ (safe-or_invalid given n _) λ order. safe-pure given n _
  ordered Comparison.gte left right =
      safe-bind given n _ _ (safe-or_invalid given n _) λ order. safe-pure given n _

  safe-search_items :
      (v wanted : ContextValue) (i count : ℕ) (path : String)
      → Safe given n (search_items given outside eval test v wanted i count path)
  unfolding search_items
  safe-search_items v wanted i zero path = safe-pure given n false
  safe-search_items v wanted i (suc count) path =
      safe-bind given n _ _ (safe-tick given n path) λ _.
        elim (Bool-cases (is_some_and (index v i) (λ here. same given outside here wanted))) [
          | inl e ↦ rw e (safe-pure given n true)
          | inr e ↦ rw e (safe-search_items v wanted (suc i) count path)
        ]

  safe-contained :
      (v wanted : ContextValue) (o : Option String) (path : String)
      → Safe given n (contained given outside eval test v wanted o path)
  unfolding contained
  safe-contained v wanted (some whole) path =
      safe-bind given n _ _ (safe-or_invalid given n (text_of wanted)) λ part. safe-pure given n _
  safe-contained v wanted none path =
      safe-bind given n _ _ (safe-items given n v path)
        λ count. safe-search_items v wanted 0 count path

  safe-every :
      (ps : ContextPredicates) (path : String)
      → RequiresTests given ps
      → Safe given n (every given outside eval test ps path)
  unfolding every Requires
  safe-every no_predicates path required = safe-pure given n true
  safe-every (Language.predicate p ps) path (first, later) =
      safe-bind given n _ _ (safe-test p path first) λ here. elim (Bool-cases here) [
        | inl e ↦ rw e (safe-every ps path later)
        | inr e ↦ rw e (safe-pure given n false)
      ]

  safe-some_of :
      (ps : ContextPredicates) (path : String)
      → RequiresTests given ps
      → Safe given n (some_of given outside eval test ps path)
  unfolding some_of Requires
  safe-some_of no_predicates path required = safe-pure given n false
  safe-some_of (Language.predicate p ps) path (first, later) =
      safe-bind given n _ _ (safe-test p path first) λ here. elim (Bool-cases here) [
        | inl e ↦ rw e (safe-pure given n true)
        | inr e ↦ rw e (safe-some_of ps path later)
      ]

  presence_settled :
      (o : Outcome AccessError ContextValue)
      → Safe given n (answer_with (presence given outside eval test o))
  unfolding Safe
  presence_settled (ok v) s w fuel = (tt, Runs-refl given s, w)
  presence_settled (err (missing name)) s w fuel = (tt, Runs-refl given s, w)
  presence_settled (err invalid) s w fuel = (tt, Runs-refl given s, w)

  safe-predicate_node :
      (p : ContextPredicate) (path : String)
      → RequiresTest given p
      → Safe given n (predicate_node given outside eval test p path)
  unfolding predicate_node Requires
  safe-predicate_node (ContextPredicate.compare left operator right) path (first, later) =
      safe-bind given n _ _ (safe-eval left path first)
        λ a. safe-bind given n _ _ (safe-eval right path later) λ b. ordered operator a b
  safe-predicate_node (ContextPredicate.contains value wanted) path (first, later) =
      safe-bind given n _ _ (safe-eval value path first) λ v.
        safe-bind given n _ _ (safe-eval wanted path later) λ w. safe-contained v w (text_of v) path
  safe-predicate_node (ContextPredicate.eq left right) path (first, later) =
      safe-bind given n _ _ (safe-eval left path first)
        λ a. safe-bind given n _ _ (safe-eval right path later) λ b. safe-pure given n _
  safe-predicate_node (ContextPredicate.present value) path required =
      safe-attempt given n _ _ (safe-eval value path required) λ o _. presence_settled o
  safe-predicate_node (ContextPredicate.and ps) path required = safe-every ps path required
  safe-predicate_node (ContextPredicate.or ps) path required = safe-some_of ps path required
  safe-predicate_node (ContextPredicate.negate p) path required =
      safe-bind given n _ _ (safe-test p path required) λ b. safe-pure given n _

module _ (given : Inputs) (outside : Outside) (library : RequiresLibrary given) where
  mutual
    unfolding expression predicate Safe

    pub safe-expression :
        (n : ℕ) (e : ContextExpr) (path : String)
        → Requires given e
        → Safe given n (expression given outside n e path)
    safe-expression zero e path required s w fuel = omega (arith, w.steps, fuel)
    safe-expression (suc n) e path required s w fuel =
        safe-step given n path _
          (safe-expression_node given outside n _ _ (safe-expression n) (safe-predicate n) library e
            path required)
          s w fuel

    pub safe-predicate :
        (n : ℕ) (p : ContextPredicate) (path : String)
        → RequiresTest given p
        → Safe given n (predicate given outside n p path)
    safe-predicate zero p path required s w fuel = omega (arith, w.steps, fuel)
    safe-predicate (suc n) p path required s w fuel =
        safe-step given n path _
          (safe-predicate_node given outside n _ _ (safe-expression n) (safe-predicate n) library p
            path required)
          s w fuel
