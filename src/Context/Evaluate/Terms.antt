-- ===== src/Context/Evaluate/Terms.antt =====
-- rust/crates/zf-context/src/context.rs: what the arms of `Evaluator::expression` and
-- `Evaluator::keyed` do with the values that the recursive calls gave them.
pub mod Lists
use zedflow.Context.Evaluate.Terms.Lists.{
  verdict, first, extended, construct_error, resource_error, kept, Keyed, Groups, enter_group,
  group_value,
}
use zedflow.Base.{
  ℕ, zero, suc, ◌+◌, ◌-◌, String, ◌<>◌, Bool, true, false, not, ◌&&◌, Option, none, some, List, [],
  ◌∷◌, ◌++◌, leb, ltb, ◌==◌, if◌then◌else◌, length, map, contains, is_some, get_or,
}
use zedflow.Base.Outcome.{Outcome, ok, err}
use zedflow.Base.Text.{utf8_len, take_chars, contains_text, decimal, strip_prefix}
use zedflow.Base.Maps
use zedflow.Base.Maps.{Map}
use zedflow.Base.Sets
use zedflow.Base.Sets.{Set}
use zedflow.Json.{Value, pos_int}
use zedflow.Core.Diagnostic.{Diagnostic, diagnostic}
use zedflow.Core.Types
use zedflow.Core.Types.{DataType}
use zedflow.Core.Values.{validate_value}
use zedflow.Context.Language.{
  ContextExpr, Exprs, NamedExprs, no_exprs, expr, no_named, ContextPredicate, ContextPredicates,
  no_predicates, Comparison, MeasureUnit, LibraryKind, ContextFunction, function_of,
}
use zedflow.Context.Language.Template.{TemplatePart, plain, Parts, template_parts}
use zedflow.Context.Evaluate.Values.{
  ContextValue, to_values, to_fields, owned, index, field_of, array_len, as_value, text_of, as_json,
  equivalent,
}
use zedflow.Context.Evaluate.Values.Numbers.{compare_values, reverse}
use zedflow.Context.Evaluate.State.{
  AccessError, missing, invalid, Inputs, Outside, Evaluator, Answer, gave, panicked, exhausted,
  Action, pure, fail, ◌>>=◌, ◌>>◌, attempt, handled, modify, observe, or_invalid, push, error, tick,
  items, charge, bytes, scoped, extend,
}
use Prim.Native.Nat.{Ordering}

abbrev pub Eval : Type 0
Eval = ContextExpr → String → Action ContextValue

abbrev pub Test : Type 0
Test = ContextPredicate → String → Action Bool

module _ (given : Inputs) (outside : Outside) where
  abbrev pub measure_value : ContextValue → String → Action ℕ
  measure_value v path = bytes given outside.chunks v path

  abbrev pub checked_against : DataType → Value → Option (Outcome (List Diagnostic) (Unit {0}))
  checked_against t raw = validate_value outside.debug t raw given.types

  abbrev pub same : ContextValue → ContextValue → Bool
  same a b = equivalent outside.value_eq a b

  -- What remains of `keyed` for a key: `Map` takes it as it is, the others charge its size.
  unfoldable pub charge_key : ContextExpr → ContextValue → String → Action (Unit {0})
  charge_key (ContextExpr.map _ _ _) result path = pure tt
  charge_key _ result path = measure_value result path >>= λ n. charge given n path

  unfoldable pub dedup_from : List Keyed → Set → String → Action (List ContextValue)
  dedup_from [] seen path = pure []
  dedup_from ((key, v) ∷ rest) seen path = do
    encoded ← or_invalid (outside.encode (as_json key))
    charge given (utf8_len encoded) path
    later ← dedup_from rest (Sets.insert seen encoded) path
    pure (if contains seen encoded then later else v ∷ later)

  unfoldable pub group_from : List Keyed → Groups → String → Action Groups
  unfolding enter_group
  group_from [] groups path = pure groups
  group_from ((key, v) ∷ rest) groups path = do
    encoded ← or_invalid (outside.encode (as_json key))
    charge given (utf8_len encoded) path
    group_from rest (enter_group encoded key v (Maps.get groups.1 encoded) groups) path

  abbrev or_equal : Option Ordering → Ordering
  or_equal o = get_or o Ordering.eq

  unfoldable pub key_order : Bool → Keyed → Keyed → Ordering
  key_order descending (left, _) (right, _) =
      let order = or_equal (compare_values outside.floats left right) in
      if descending then reverse order else order

  -- The last `match` of `keyed`.
  unfoldable pub keyed_values : ContextExpr → List Keyed → String → Action ContextValue
  unfolding dedup_from group_from key_order
  keyed_values (ContextExpr.map _ _ _) pairs path =
      pure (ContextValue.array (to_values (map (λ (p : Keyed). p.0) pairs)))
  keyed_values (ContextExpr.sort _ _ _ descending) pairs path = pure (
      ContextValue.array
        (to_values (map (λ (p : Keyed). p.1) (outside.sort_by (key_order descending) pairs))))
  keyed_values (ContextExpr.dedup _ _ _) pairs path =
      dedup_from pairs [] path >>= λ kept. pure (ContextValue.array (to_values kept))
  keyed_values (ContextExpr.group_by _ _ _) pairs path =
      group_from pairs ([], []) path >>= λ groups.
      pure (ContextValue.array (to_values (map group_value groups.0)))
  keyed_values _ pairs path = fail invalid

  -- `validated` guards the one check of a resource against the type that the strategy requires.
  unfoldable pub check_resource : String → Value → Option DataType → String → Action (Unit {0})
  unfolding verdict
  check_resource name v none path s = panicked
  check_resource name v (some t) path s =
      verdict (λ ds. extended (map (resource_error path name) ds)) (checked_against t v) s

  unfoldable pub first_read : String → Value → String → Action (Unit {0})
  unfolding check_resource
  first_read name v path = do
    measure_value (ContextValue.shared v) path
    check_resource name v (Maps.get given.requirements name) path
    modify λ s. record s { validated = Sets.insert s.validated name }

  unfoldable pub found_resource : String → String → Option Value → Action ContextValue
  unfolding first_read
  found_resource name path none = fail (missing name)
  found_resource name path (some v) =
      observe (λ s. contains s.validated name)
        (λ known. if known then pure tt else first_read name v path)
      >> pure (ContextValue.shared v)

  unfoldable pub resource_node : String → String → Action ContextValue
  unfolding found_resource
  resource_node name path =
      modify (λ s. record s {
        reads = Sets.insert s.reads name;
        all_reads = Sets.insert s.all_reads name;
      })
      >> found_resource name path (Maps.get given.resources name)

  unfoldable pub variable_node : String → Action ContextValue
  unfolding extend
  variable_node name =
      modify
        (λ s. record s { reads = extend s.reads (get_or (Maps.get s.variable_sources name) []) })
      >> observe (λ s. Maps.get s.variables name) or_invalid

  -- `ok_or_else(|| { push missing_field; Invalid })`
  unfoldable pub found_field : String → String → Option ContextValue → Action ContextValue
  found_field name path (some v) s = gave (ok v) s
  found_field name path none s =
      gave (err invalid) (push (diagnostic "missing_field" path ("Field unavailable: " <> name)) s)

  unfoldable pub project_from :
      ContextValue → List String → Map ContextValue → String → Action (Map ContextValue)
  unfolding found_field
  project_from v [] selected path = pure selected
  project_from v (name ∷ names) selected path = found_field name path (field_of v name) >>= λ part.
      project_from v names (Maps.insert selected name part) path

  unfoldable pub part_text : Map ContextValue → TemplatePart → Action String
  part_text arguments (TemplatePart.plain s) = pure s
  part_text arguments (TemplatePart.variable name) =
      or_invalid (elim (Maps.get arguments name) [ none ↦ none | some v ↦ text_of v ])

  unfoldable pub render : List TemplatePart → Map ContextValue → String → String → Action String
  unfolding part_text
  render [] arguments written path = pure written
  render (p ∷ ps) arguments written path = part_text arguments p >>= λ part.
      if ltb (given.limits.max_bytes - utf8_len written) (utf8_len part)
      then error path "Template exceeds its byte budget"
      else render ps arguments (written <> part) path

  abbrev pub or_stuck : Parts → Action (List TemplatePart)
  or_stuck none s = exhausted
  or_stuck (some (ok ps)) s = gave (ok ps) s
  or_stuck (some (err e)) s = gave (err invalid) s

  unfoldable pub media_count : ContextValue → String → Option ℕ → Action ℕ
  media_count v path (some n) = items given v path
  media_count v path none = pure 1

  unfoldable pub measure_node : MeasureUnit → ContextValue → String → Action ℕ
  unfolding media_count
  measure_node MeasureUnit.bytes v path = measure_value v path
  measure_node MeasureUnit.entries v path = items given v path
  measure_node MeasureUnit.media v path = media_count v path (array_len v)

  -- The two ways of checking the value that `Construct` names.
  unfoldable pub check_construct :
      DataType → ContextValue → Option Value → String → Action (Unit {0})
  unfolding verdict first
  check_construct t v (some raw) path =
      verdict (λ ds. extended (map (construct_error path) (first 64 ds))) (checked_against t raw)
  check_construct t v none path = do
    n ← measure_value v path
    charge given n path
    verdict (λ ds. extended (map (construct_error path) (first 64 ds)))
        (checked_against t (as_json v))

  -- Both maps are replaced for a call and put back, whatever it gave.
  unfoldable pub called : {A : Type 0} → Map ContextValue → Map Set → Action A → Action A
  called bindings sources m before =
      handled (m (record before { variables = bindings; variable_sources = sources })) λ o s.
        gave o
          (record s { variables = before.variables; variable_sources = before.variable_sources })
