-- ===== src/Examples/Contexts.antt =====
-- rust/crates/zf-context/src/context.rs: runs of the context language, and the theorems at them.
pub mod Answers
use zedflow.Context.Check.Terms.{found_type, resource_type, type_node}
use zedflow.Context.Check.Recursion.{check_expression}
use zedflow.Context.Check.{resolve_upto, resolved, appended, error_if, data_type, depth, ◌>>=◌}
use zedflow.Core.Values.{check_value, validate_value}
use zedflow.Base.Text.{decimal, is_blank, any_char, utf8_len, is_empty, split_at}
use zedflow.Base.Maps
use zedflow.Context.Evaluate.Runs.Required.{RequiresLibrary, RequiresBlocks, RequiresTest, Requires}
use zedflow.Base.{
  ℕ, ◌≡◌, ◌↔◌, refl, true, false, if◌then◌else◌, Option, none, some, List, [], ◌∷◌, arith, is_some,
}
use zedflow.Base.Outcome.{ok}
use zedflow.Base.Maps.{Map, keys}
use zedflow.Base.Sets
use zedflow.Json
use zedflow.Json.{Value, pos_int}
use zedflow.Core.Types
use zedflow.Core.Types.{DataType, TypeRegistry}
use zedflow.Context.Fragment
use zedflow.Context.Window
use zedflow.Context.Window.{WindowItems, PreparedWindow}
use zedflow.Context.Window.Capture.{capture}
use zedflow.Context.Language.{
  merge_type, merge_types, resolved_types, block_id, ContextExpr, ContextPredicate, ContextBlock,
  ContextBlocks, no_blocks, block, ContextStrategy, LibraryKind, function_of, block_ids,
}
use zedflow.Context.Language.Types.{Combines, resolved_types-Combines}
use zedflow.Context.Language.Template.{valid_id, plain, variable, template_parts, written}
use zedflow.Context.Language.Template.Roundtrip.{written-template_parts, template_parts_total}
use zedflow.Context.Evaluate.Values.{
  as_value, ContextValue, no_values, value, measured_bytes, equivalent, text_of,
}
use zedflow.Context.Evaluate.Values.Numbers.{from_nat}
use zedflow.Context.Evaluate.Values.Numbers.{Floats}
use zedflow.Context.Evaluate.Values.Alike.{Alike, equivalent-Alike}
use zedflow.Context.Evaluate.Values.Measure.{measured_bytes-size, bounded, full_size}
use zedflow.Context.Evaluate.State.{
  extend, count_output, bytes, tick, handled, and_then, EvaluationLimits, Inputs, Outside,
  Evaluator, gave, ContextTrace,
}
use zedflow.Context.Evaluate.Expressions.{expression, predicate}
use zedflow.Context.Evaluate.Terms.Lists.{Keyed}
use zedflow.Runtime.Predicates.{is_gt}
use zedflow.Context.Evaluate.Terms.{resource_node}
use zedflow.Context.Evaluate.Blocks.Identities.{fragment}
use zedflow.Context.Evaluate.Blocks.Identities.{ContextItem, to_items}
use zedflow.Context.Evaluate.Program.{
  Evaluated, fresh, inputs_of, evaluate_checked, evaluate_with_limits,
}
use zedflow.Context.Check.Entries.{empty_library}
use zedflow.Context.Check.Blocks.{
  representable, enter_id, check_named_types, check_capabilities, check_functions, check_blocks,
  check_strategy, check,
}
use zedflow.Context.Evaluate.Whole.{
  IsAnswer, evaluate_with_limits-IsAnswer, evaluate_with_limits-sources,
}
use zedflow.Context.Evaluate.Runs.{Ends, After, Within}
use zedflow.Context.Evaluate.Runs.Delivers.{ItemsRead}
use zedflow.Context.Evaluate.Runs.Program.{
  expression-ends, predicate-ends, evaluate_checked-IsBounded, IsBounded, fresh-Within,
}
use Prim.Native.Nat.{Ordering}
use Prim.Native.Nat
use mathlib.Core.List.{Perm}

abbrev plain_floats : Floats
plain_floats = record {
  at_least_max = λ bits. false;
  at_most_min = λ bits. false;
  as_integer = λ bits. from_nat 0;
  fract_positive = λ bits. false;
  fract_negative = λ bits. false;
  partial_cmp = λ a b. none;
}

-- A stable sort.
abbrev put : (Keyed → Keyed → Ordering) → Keyed → List Keyed → List Keyed
put order x [] = x ∷ []
put order x (y ∷ ys) =
    let rest = put order x ys in if is_gt (order x y) then y ∷ rest else x ∷ y ∷ ys

abbrev sorted : (Keyed → Keyed → Ordering) → List Keyed → List Keyed
sorted order [] = []
sorted order (x ∷ xs) = put order x (sorted order xs)

abbrev outside : Outside
outside = record {
  value_eq = λ a b. false;
  chunks = λ v. 2 ∷ 3 ∷ [];
  encode = λ v. some "[]";
  debug = λ t. "type";
  floats = plain_floats;
  sort_by = sorted;
}

abbrev small_limits : EvaluationLimits
small_limits = record { max_steps = 40; max_items = 5; max_bytes = 60 }

abbrev requirements : Map DataType
requirements = ("docs", DataType.list DataType.text) ∷ ("missing", DataType.text) ∷ []

abbrev docs : Value
docs = Value.array (Json.item (Value.string "one") (Json.item (Value.string "two") Json.no_items))

abbrev resources : Map Value
resources = ("docs", docs) ∷ []

-- Each document, and a condition on a resource that is unavailable.
abbrev program : ContextBlocks
program =
    block
      (ContextBlock.for_each "each" (ContextExpr.take (ContextExpr.resource "docs") 2) "doc" (
        block (ContextBlock.emit "one" Fragment.content Fragment.text (ContextExpr.variable "doc"))
          no_blocks))
      (block
        (ContextBlock.branch "maybe" (ContextPredicate.present (ContextExpr.resource "missing"))
          no_blocks no_blocks)
        no_blocks)

abbrev strategy : ContextStrategy
strategy = record {
  version = 1;
  id = "s";
  name = "Strategy";
  types = [];
  requirements = requirements;
  capabilities = [];
  program = program;
}

abbrev given : Inputs
given = inputs_of strategy resources [] empty_library small_limits

abbrev start : Evaluator
start = fresh (block_ids program [])

start-Within : Within given start
start-Within = fresh-Within given (block_ids program [])

abbrev sorted_docs : ContextExpr
sorted_docs = ContextExpr.sort (ContextExpr.resource "docs") "doc" (ContextExpr.variable "doc") true

no_functions : RequiresLibrary given
unfolding function_of Maps.get
no_functions LibraryKind.projection name function h = cc
no_functions LibraryKind.subprogram name function h = cc

expression-ends_example :
    Ends (After given start) (expression given outside 41 sorted_docs "p" start)
unfolding Requires Maps.get
expression-ends_example =
    expression-ends given outside 41 sorted_docs "p" start no_functions (refl, tt) start-Within
      (omega arith)

abbrev has_two : ContextPredicate
has_two =
    ContextPredicate.contains (ContextExpr.resource "docs")
      (ContextExpr.literal DataType.text (Value.string "two"))

predicate-ends_example : Ends (After given start) (predicate given outside 41 has_two "p" start)
unfolding RequiresTest Maps.get
predicate-ends_example =
    predicate-ends given outside 41 has_two "p" start no_functions (refl, tt) start-Within
      (omega arith)

evaluate_checked-IsBounded_example :
    (e : Evaluated) × (s : Evaluator) × (evaluate_checked outside strategy resources []
        empty_library small_limits
      ≡ gave (ok e) s)
    × IsBounded given outside e
unfolding RequiresBlocks Maps.get
evaluate_checked-IsBounded_example =
    evaluate_checked-IsBounded outside strategy resources [] empty_library small_limits no_functions
      (((refl, (tt, tt)), ((refl, tt, tt), tt)))

written-template_parts_example :
    written (plain "Dear " ∷ variable "name" ∷ plain "!" ∷ []) ≡ "Dear {{name}}!"
unfolding template_parts split_at valid_id is_empty utf8_len any_char
written-template_parts_example =
    written-template_parts "Dear {{name}}!" (plain "Dear " ∷ variable "name" ∷ plain "!" ∷ []) refl

template_parts_total_example : is_some (template_parts "{{a}} and {{b") ≡ true
template_parts_total_example = template_parts_total "{{a}} and {{b"

-- The second element of a loop, after an occurrence of its block for the first one.
abbrev looping : Evaluator
looping = record (fresh (block_ids program [])) {
  iterations = record { block_id = "each"; index = 0 } ∷ [];
}

abbrev onward : Evaluator
onward = record looping {
  iterations = record { block_id = "each"; index = 1 } ∷ [];
  output_ids = Sets.insert looping.output_ids "one@p";
}

abbrev pair : ContextValue
pair = ContextValue.shared docs

abbrev listed : ContextValue
listed = ContextValue.array (
    value (ContextValue.shared (Value.string "one"))
      (value (ContextValue.shared (Value.string "two")) no_values))

equivalent-Alike_example :
    (equivalent outside.value_eq pair listed ≡ true) ↔ Alike outside.value_eq pair listed
equivalent-Alike_example = equivalent-Alike outside.value_eq pair listed

measured_bytes-size_example :
    measured_bytes outside.chunks pair 4 ≡ bounded 4 (full_size outside.chunks pair (text_of pair))
measured_bytes-size_example = measured_bytes-size outside.chunks pair 4

abbrev scope : TypeRegistry
scope = ("Doc", DataType.text) ∷ []

abbrev typed : ContextStrategy
typed = record strategy { types = ("Doc", DataType.text) ∷ ("Note", DataType.number) ∷ [] }

resolved_types-Combines_example :
    Combines scope typed.types (("Doc", DataType.text) ∷ ("Note", DataType.number) ∷ [])
unfolding resolved_types merge_types merge_type Maps.get Types.type_eq Maps.insert
resolved_types-Combines_example =
    resolved_types-Combines typed scope (("Doc", DataType.text) ∷ ("Note", DataType.number) ∷ [])
      refl
