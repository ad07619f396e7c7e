-- ===== src/Context/Evaluate/Expressions.antt =====
-- rust/crates/zf-context/src/context.rs: `Evaluator::expression`, `Evaluator::predicate` and
-- `Evaluator::keyed`. The two recursive calls are the arguments `eval` and `test` of the functions
-- for the arms; `expression` and `predicate` take fuel, since a call of a library function goes on
-- with that function's body. Each of their calls is one step of the operation budget.
use zedflow.Base.{
  ℕ, zero, suc, String, ◌<>◌, Bool, true, false, not, Option, none, some, List, [], ◌∷◌, ltb,
  if◌then◌else◌, is_some_and,
}
use zedflow.Base.Outcome.{Outcome, ok, err}
use zedflow.Base.Text.{utf8_len, take_chars, contains_text, decimal}
use zedflow.Base.Maps
use zedflow.Base.Maps.{Map}
use zedflow.Base.Sets.{Set}
use zedflow.Json.{Value, pos_int}
use zedflow.Core.Types.{DataType}
use zedflow.Context.Language.{
  ContextExpr, Exprs, NamedExprs, no_exprs, expr, no_named, ContextPredicate, ContextPredicates,
  no_predicates, Comparison, MeasureUnit, LibraryKind, ContextFunction, function_of,
}
use zedflow.Context.Language
use zedflow.Context.Language.Template.{template_parts}
use zedflow.Context.Evaluate.Values.{
  ContextValue, to_values, to_fields, owned, index, field_of, as_value, text_of, as_json,
}
use zedflow.Context.Evaluate.Values.Numbers.{compare_values}
use zedflow.Context.Evaluate.State.{
  AccessError, missing, invalid, Inputs, Outside, exhausted, Action, pure, ◌>>=◌, ◌>>◌, attempt,
  answer_with, observe, or_invalid, error, tick, items, charge, scoped,
}
use zedflow.Context.Evaluate.Terms.{
  Eval, Test, same, charge_key, keyed_values, resource_node, variable_node, found_field,
  project_from, render, or_stuck, measure_node, check_construct, called, measure_value,
}
use zedflow.Context.Evaluate.Terms.Lists.{Keyed, collect, kept}
use Prim.Native.Nat.{Ordering}

-- `filter_map(|index| value.index(index))` over the indices below `i + n`
unfoldable pub taken : ContextValue → ℕ → ℕ → List ContextValue
taken v i zero = []
taken v i (suc n) = elim (index v i) [
  | none ↦ taken v (suc i) n
  | some here ↦ here ∷ taken v (suc i) n
]

abbrev pub min : ℕ → ℕ → ℕ
min a b = if ltb b a then b else a

unfoldable pub expr_count : Exprs → ℕ
expr_count no_exprs = 0
expr_count (expr e es) = suc (expr_count es)

-- `Comparison` of an order
unfoldable pub holds_for : Comparison → Ordering → Bool
holds_for Comparison.lt Ordering.lt = true
holds_for Comparison.lte Ordering.lt = true
holds_for Comparison.lte Ordering.eq = true
holds_for Comparison.gt Ordering.gt = true
holds_for Comparison.gte Ordering.gt = true
holds_for Comparison.gte Ordering.eq = true
holds_for _ _ = false

module _ (given : Inputs) (outside : Outside) where
  module _ (eval : Eval) (test : Test) where
    unfoldable pub keyed_turn :
        ContextExpr → ContextValue → String → ContextExpr → Set → String → ℕ → Action (List Keyed)
    keyed_turn expression source name key sources path i = do
      tick given path
      v ← or_invalid (index source i)
      result ← scoped name v sources (eval key path)
      charge_key given outside expression result path
      pure ((result, v) ∷ [])

    -- `Evaluator::keyed`
    unfoldable pub keyed :
        ContextExpr → ContextExpr → String → ContextExpr → String → Action ContextValue
    unfolding keyed_turn
    keyed expression value name key path = do
      source ← eval value path
      count ← items given source path
      pairs ←
          observe (λ s. s.reads)
            (λ sources. collect (keyed_turn expression source name key sources path) 0 count)
      keyed_values given outside expression pairs path

    unfoldable pub filter_turn :
        ContextValue → String → ContextPredicate → Set → String → ℕ → Action (List ContextValue)
    filter_turn source name condition sources path i = do
      tick given path
      v ← or_invalid (index source i)
      selected ← scoped name v sources (test condition path)
      pure (kept v selected)

    unfoldable pub filtered :
        ContextExpr → String → ContextPredicate → String → Action (List ContextValue)
    unfolding filter_turn
    filtered value name condition path = do
      source ← eval value path
      count ← items given source path
      observe (λ s. s.reads)
          (λ sources. collect (filter_turn source name condition sources path) 0 count)

    -- The loops over the terms of a record or a template, of a list, and of the arguments of a call.
    unfoldable pub each_named : NamedExprs → Map ContextValue → String → Action (Map ContextValue)
    each_named no_named out path = pure out
    each_named (Language.named name e rest) out path =
        eval e path >>= λ v. each_named rest (Maps.insert out name v) path

    unfoldable pub each_expr : Exprs → ℕ → String → Action (List ContextValue)
    each_expr no_exprs i path = pure []
    each_expr (expr e rest) i path = eval e (path <> ".items[" <> decimal i <> "]") >>= λ v.
        each_expr rest (suc i) path >>= λ vs. pure (v ∷ vs)

    unfoldable pub each_argument :
        NamedExprs → Map ContextValue → Map Set → String → Action (Map ContextValue × Map Set)
    each_argument no_named bindings sources path = pure (bindings, sources)
    each_argument (Language.named name e rest) bindings sources path = eval e path >>= λ v.
        observe (λ s. s.reads)
          (λ reads.
            each_argument rest (Maps.insert bindings name v) (Maps.insert sources name reads) path)

    -- The arms of `expression`.
    unfoldable pub expression_node : ContextExpr → String → Action ContextValue
    unfolding keyed filtered each_named each_expr each_argument taken expr_count
    expression_node (ContextExpr.construct name value) path = do
      v ← eval value path
      check_construct given outside (DataType.named name) v (as_value v) path
      pure v
    expression_node (ContextExpr.variable name) path = variable_node given outside name
    expression_node (ContextExpr.filter value name condition) path =
        filtered value name condition path >>= λ vs. pure (ContextValue.array (to_values vs))
    expression_node (ContextExpr.map value name body) path =
        keyed (ContextExpr.map value name body) value name body path
    expression_node (ContextExpr.sort value name key descending) path =
        keyed (ContextExpr.sort value name key descending) value name key path
    expression_node (ContextExpr.group_by value name key) path =
        keyed (ContextExpr.group_by value name key) value name key path
    expression_node (ContextExpr.dedup value name key) path =
        keyed (ContextExpr.dedup value name key) value name key path
    expression_node (ContextExpr.take value count) path = do
      v ← eval value path
      size ← items given v path
      pure (ContextValue.array (to_values (taken v 0 (min size count))))
    expression_node (ContextExpr.truncate value count) path = do
      v ← eval value path
      whole ← or_invalid (text_of v)
      charge given (utf8_len (take_chars count whole)) path
      pure (owned (Value.string (take_chars count whole)))
    expression_node (ContextExpr.record_expr named_fields) path =
        each_named named_fields [] path >>= λ out. pure (ContextValue.object (to_fields out))
    expression_node (ContextExpr.list_expr t es) path =
        if ltb given.limits.max_items (expr_count es)
        then error path "List construction exceeds the item budget"
        else each_expr es 0 path >>= λ vs. pure (ContextValue.array (to_values vs))
    expression_node (ContextExpr.template whole named_values) path = do
      parts ← or_stuck given outside (template_parts whole)
      arguments ← each_named named_values [] path
      written ← render given outside parts arguments "" path
      charge given (utf8_len written) path
      pure (owned (Value.string written))
    expression_node (ContextExpr.to_json value) path = do
      v ← eval value path
      measure_value given outside v path
      written ← or_invalid (outside.encode (as_json v))
      charge given (utf8_len written) path
      pure (owned (Value.string written))
    expression_node (ContextExpr.measure value unit) path = do
      v ← eval value path
      count ← measure_node given outside unit v path
      pure (owned (Value.number (pos_int count)))
    expression_node (ContextExpr.call catalog name arguments) path = do
      function ← or_invalid (function_of given.library catalog name)
      bound ← each_argument arguments [] [] path
      called given outside bound.0 bound.1 (eval function.body (path <> ".call." <> name))
    expression_node (ContextExpr.resource name) path = resource_node given outside name path
    expression_node (ContextExpr.literal t value) path = pure (ContextValue.shared value)
    expression_node (ContextExpr.field value name) path =
        eval value path >>= λ v. found_field given outside name path (field_of v name)
    expression_node (ContextExpr.project value names) path = do
      v ← eval value path
      selected ← project_from given outside v names [] path
      pure (ContextValue.object (to_fields selected))

    unfoldable pub compared : Comparison → ContextValue → ContextValue → Action Bool
    unfolding holds_for
    compared Comparison.ne left right = pure (not (same given outside left right))
    compared operator left right =
        or_invalid (compare_values outside.floats left right) >>= λ order.
        pure (holds_for operator order)

    -- The loop of `Contains` over the items of a collection, from an index on.
    unfoldable pub search_items : ContextValue → ContextValue → ℕ → ℕ → String → Action Bool
    search_items v wanted i zero path = pure false
    search_items v wanted i (suc n) path =
        tick given path
        >> (if is_some_and (index v i) (λ here. same given outside here wanted)
            then pure true
            else search_items v wanted (suc i) n path)

    unfoldable pub contained : ContextValue → ContextValue → Option String → String → Action Bool
    unfolding search_items
    contained v wanted (some whole) path =
        or_invalid (text_of wanted) >>= λ part. pure (contains_text part whole)
    contained v wanted none path =
        items given v path >>= λ count. search_items v wanted 0 count path

    abbrev pub presence : Outcome AccessError ContextValue → Outcome AccessError Bool
    presence (ok v) = ok true
    presence (err (missing name)) = ok false
    presence (err invalid) = err invalid

    unfoldable pub every : ContextPredicates → String → Action Bool
    every no_predicates path = pure true
    every (Language.predicate p ps) path =
        test p path >>= λ here. if here then every ps path else pure false

    unfoldable pub some_of : ContextPredicates → String → Action Bool
    some_of no_predicates path = pure false
    some_of (Language.predicate p ps) path =
        test p path >>= λ here. if here then pure true else some_of ps path

    -- The arms of `predicate`.
    unfoldable pub predicate_node : ContextPredicate → String → Action Bool
    unfolding compared contained every some_of
    predicate_node (ContextPredicate.compare left operator right) path = do
      a ← eval left path
      b ← eval right path
      compared operator a b
    predicate_node (ContextPredicate.contains value wanted) path = do
      v ← eval value path
      w ← eval wanted path
      contained v w (text_of v) path
    predicate_node (ContextPredicate.present value) path =
        attempt (eval value path) (λ o. answer_with (presence o))
    predicate_node (ContextPredicate.eq left right) path = do
      a ← eval left path
      b ← eval right path
      pure (same given outside a b)
    predicate_node (ContextPredicate.and ps) path = every ps path
    predicate_node (ContextPredicate.or ps) path = some_of ps path
    predicate_node (ContextPredicate.negate p) path = test p path >>= λ b. pure (not b)

  unfoldable mutual
    unfolding expression_node predicate_node

    -- `Evaluator::expression`
    pub expression : ℕ → ContextExpr → String → Action ContextValue
    expression zero e path s = exhausted
    expression (suc fuel) e path s =
        (tick given path >> expression_node (expression fuel) (predicate fuel) e path) s

    -- `Evaluator::predicate`
    pub predicate : ℕ → ContextPredicate → String → Action Bool
    predicate zero p path s = exhausted
    predicate (suc fuel) p path s =
        (tick given path >> predicate_node (expression fuel) (predicate fuel) p path) s
