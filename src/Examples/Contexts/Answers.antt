-- ===== src/Examples/Contexts/Answers.antt =====
-- rust/crates/zf-context/src/context.rs: a strategy that is checked, evaluated and captured.
use zedflow.Context.Check.Terms.{found_type, resource_type, type_node}
use zedflow.Context.Check.Recursion.{check_expression}
use zedflow.Context.Check.{resolve_upto, resolved, appended, error_if, data_type, depth, ◌>>=◌}
use zedflow.Core.Values.{check_value, validate_value}
use zedflow.Base.Text.{decimal, is_blank, any_char, utf8_len, is_empty}
use zedflow.Base.Maps
use zedflow.Base.{ℕ, ◌≡◌, refl, true, Option, none, some, List, [], ◌∷◌}
use zedflow.Base.Outcome.{ok}
use zedflow.Base.Maps.{Map, keys}
use zedflow.Base.Sets
use zedflow.Json
use zedflow.Json.{Value, pos_int}
use zedflow.Core.Types
use zedflow.Core.Types.{DataType, TypeRegistry}
use zedflow.Context.Fragment
use zedflow.Context.Window
use zedflow.Context.Window.{WindowItems, PreparedWindow}
use zedflow.Context.Window.Capture.{capture}
use zedflow.Context.Language.{
  merge_types, resolved_types, block_id, ContextExpr, ContextBlock, no_blocks, block,
  ContextStrategy, block_ids,
}
use zedflow.Context.Language.Template.{valid_id}
use zedflow.Context.Evaluate.Values.{as_value, measured_bytes}
use zedflow.Context.Evaluate.State.{
  extend, count_output, bytes, tick, handled, and_then, Evaluator, gave, ContextTrace,
}
use zedflow.Context.Evaluate.Expressions.{expression}
use zedflow.Context.Evaluate.Terms.{resource_node}
use zedflow.Context.Evaluate.Blocks.Identities.{fragment}
use zedflow.Context.Evaluate.Blocks.Identities.{occurrence_id, ContextItem, to_items}
use zedflow.Context.Evaluate.Program.{Evaluated, evaluate_checked, evaluate_with_limits}
use zedflow.Context.Check.Entries.{empty_library}
use zedflow.Context.Check.Blocks.{
  representable, enter_id, check_named_types, check_capabilities, check_functions, check_blocks,
  check_strategy, check_declarations, check,
}
use zedflow.Context.Evaluate.Whole.{
  IsAnswer, evaluate_with_limits-IsAnswer, evaluate_with_limits-sources,
}
use zedflow.Context.Evaluate.Runs.Delivers.{ItemsRead}
use zedflow.Examples.Contexts.{outside, small_limits, docs, resources, strategy, pair}

abbrev single : ContextStrategy
single = record strategy {
  program =
      block (ContextBlock.emit "one" Fragment.content Fragment.json (ContextExpr.resource "docs"))
        no_blocks;
}

abbrev single_trace : List ContextTrace
single_trace =
    record {
      id = "one";
      block_id = "one";
      path = "program[0]";
      sources = "docs" ∷ [];
      iterations = [];
      output_ids = "one" ∷ [];
      outcome = none;
    }
    ∷ []

abbrev single_items : List ContextItem
single_items = fragment "one" Fragment.content Fragment.json pair ("docs" ∷ []) ∷ []

abbrev single_result : Evaluated
single_result = (
  record {
    complete = true;
    items = single_items;
    capabilities = [];
    needs = [];
    diagnostics = [];
    reads = "docs" ∷ [];
  },
  single_trace,
)

abbrev single_end : Evaluator
single_end = record {
  needs = [];
  diagnostics = [];
  validated = "docs" ∷ [];
  variables = [];
  steps = 2;
  output_bytes = 5;
  derived_bytes = 0;
  reads = "docs" ∷ [];
  all_reads = "docs" ∷ [];
  variable_sources = [];
  trace = single_trace;
  iterations = [];
  output_ids = "one" ∷ [];
  output_items = 1;
}

single_run :
    evaluate_checked outside single resources [] empty_library small_limits
    ≡ gave (ok single_result) single_end
unfolding evaluate_checked and_then handled tick occurrence_id expression resource_node Maps.get
    bytes measured_bytes as_value Json.as_str validate_value Types.validate_type Types.check_type
    check_value Json.as_array Json.is_string count_output block_id Sets.insert decimal extend
    block_ids
single_run = refl

abbrev window : PreparedWindow
window = record {
  strategy_id = "s";
  strategy_revision = "1";
  program_revision = none;
  items =
      Window.entry (Window.fragment "one" Fragment.content Fragment.json docs ("docs" ∷ []))
        Window.done;
  source_revisions = ("docs", "7") ∷ [];
  capabilities = [];
}

abbrev sizes : PreparedWindow → List ℕ
sizes w = 40 ∷ []

abbrev to_value : List ContextItem → Option Value
to_value items = some docs

abbrev from_value : Value → Option WindowItems
from_value v = some window.items

single_capture :
    capture sizes to_value from_value "s" "1" single_result.0 (("docs", "7") ∷ []) ≡ ok window
unfolding capture Maps.get Window.validate is_blank Window.check_each Window.admit
    Window.check_fragment Fragment.is_instruction Window.fits Window.write_all Window.write
single_capture = refl

evaluate_with_limits-IsAnswer_example :
    (e : Evaluated) × (evaluate_with_limits outside strategy resources [] empty_library small_limits
      ≡ some e)
    × IsAnswer outside strategy resources [] empty_library small_limits e
evaluate_with_limits-IsAnswer_example =
    evaluate_with_limits-IsAnswer outside strategy resources [] empty_library small_limits

single_check : check outside.debug single (some []) empty_library ≡ ok tt
unfolding check resolved_types merge_types check_strategy check_declarations ◌>>=◌ check_blocks
    depth check_functions check_capabilities check_named_types data_type error_if appended
    Types.validate_type Types.check_type is_blank valid_id is_empty utf8_len any_char
    check_expression enter_id block_id type_node resource_type found_type Maps.get resolved
    resolve_upto representable Fragment.is_instruction
single_check = refl

single_types : resolved_types single [] ≡ ok []
unfolding resolved_types merge_types
single_types = refl

single_answer :
    evaluate_with_limits outside single resources [] empty_library small_limits ≡ some single_result
unfolding evaluate_with_limits
single_answer = rw (single_check, evaluate_with_limits, single_types, single_run) refl

evaluate_with_limits-sources_example : ItemsRead ("docs" ∷ []) (to_items single_items)
evaluate_with_limits-sources_example =
    evaluate_with_limits-sources outside single resources [] empty_library small_limits sizes
      to_value from_value "1" (("docs", "7") ∷ []) single_result window single_answer single_capture
