-- ===== src/Examples/Checks.antt =====
-- rust/crates/zf-context/src/context.rs: `check` on small strategies.
use zedflow.Base.Sets
use zedflow.Base.{All, false, String, ◌≡◌, ◌≢◌, ◌≤◌, refl, none, some, List, [], ◌∷◌, length}
use zedflow.Base.Outcome.{ok, err}
use zedflow.Core.Diagnostic.{Diagnostic, diagnostic}
use zedflow.Core.Types.{type_eq, DataType, validate_type, check_type}
use zedflow.Base.Maps
use zedflow.Base.Text.{decimal, is_blank, is_empty, utf8_len, any_char}
use zedflow.Context.Fragment
use zedflow.Context.Language.{resolved_types, merge_types, block_id}
use zedflow.Context.Language.Template.{valid_id}
use zedflow.Context.Check.{
  resolve_upto, push_limited, error, appended, error_if, resolved, ◌>>=◌, depth, data_type, typed,
}
use zedflow.Context.Check.Terms.{
  variable_type, listed, found_type, resource_type, type_node, collection_item,
}
use zedflow.Context.Check.Terms.Names.{restore_type, with_variable}
use zedflow.Context.Check.Recursion.{check_expression}
use zedflow.Context.Language.{
  ContextExpr, MeasureUnit, ContextBlock, ContextBlocks, no_blocks, block, ContextStrategy,
}
use zedflow.Context.Check.Blocks.{
  check_declarations, representable, enter_id, within_item, check_named_types, check_capabilities,
  check_functions, check_blocks, check_strategy, check,
}
use zedflow.Context.Check.Accepted.{check-Requires, check-limited, check-Distinct}
use zedflow.Context.Check.Sound.Marked.{Distinct}
use zedflow.Context.Check.Grounded.{IsGrounded}
use zedflow.Context.Check.Entries.{empty_library, expression_type}
use zedflow.Context.Check.Typing.{IsTyping, expression_type-IsTyping}
use zedflow.Context.Evaluate.State.{default_limits}
use zedflow.Context.Evaluate.Program.{inputs_of}
use zedflow.Context.Evaluate.Runs.Required.{RequiresLibrary, RequiresBlocks}

abbrev strategy_of : ContextBlocks → ContextStrategy
strategy_of program = record {
  version = 1;
  id = "s";
  name = "Strategy";
  types = [];
  requirements = ("docs", DataType.list DataType.text) ∷ [];
  capabilities = [];
  program = program;
}

abbrev each_doc : ContextExpr → ContextBlocks
each_doc value =
    block
      (ContextBlock.for_each "each" value "doc" (
        block (ContextBlock.emit "one" Fragment.content Fragment.text (ContextExpr.variable "doc"))
          no_blocks))
      no_blocks

abbrev debug : DataType → String
debug t = "type"

abbrev accepted : ContextStrategy
accepted = strategy_of (each_doc (ContextExpr.resource "docs"))

abbrev undeclared : ContextStrategy
undeclared = strategy_of (each_doc (ContextExpr.resource "other"))

accepted_example : check debug accepted (some []) empty_library ≡ ok tt
unfolding check resolved_types merge_types ◌>>=◌ depth data_type validate_type check_type is_blank
    valid_id is_empty utf8_len any_char collection_item typed check_expression block_id Maps.get
    resolved Sets.insert Maps.insert type_eq Fragment.is_instruction check_strategy check_blocks
    check_functions check_capabilities check_named_types error_if appended within_item enter_id
    type_node resource_type found_type listed resolve_upto with_variable restore_type variable_type
    representable check_declarations
accepted_example = refl

undeclared_example :
    check debug undeclared none empty_library
    ≡ err
        (diagnostic "undeclared_resource" "program[0].value" "Resource is not declared: other" ∷ [])
unfolding check resolved_types merge_types ◌>>=◌ depth data_type validate_type check_type is_blank
    valid_id is_empty utf8_len any_char collection_item typed check_expression block_id Maps.get
    decimal check_strategy check_blocks check_functions check_capabilities check_named_types
    error_if appended within_item enter_id type_node resource_type found_type error push_limited
    check_declarations
undeclared_example = refl

accepted_types : resolved_types accepted [] ≡ ok []
unfolding resolved_types merge_types
accepted_types = refl

undeclared_types : resolved_types undeclared [] ≡ ok []
unfolding resolved_types merge_types
undeclared_types = refl

check-Requires_example :
    RequiresLibrary (inputs_of accepted [] [] empty_library default_limits)
    × RequiresBlocks (inputs_of accepted [] [] empty_library default_limits) accepted.program
check-Requires_example =
    check-Requires debug accepted [] [] empty_library [] default_limits accepted_types
      accepted_example

abbrev undeclared_errors : List Diagnostic
undeclared_errors =
    diagnostic "undeclared_resource" "program[0].value" "Resource is not declared: other" ∷ []

check-limited_example : (undeclared_errors ≢ []) × (length undeclared_errors ≤ 64)
check-limited_example =
    check-limited debug undeclared none [] empty_library undeclared_errors undeclared_types
      undeclared_example

abbrev long_docs : ContextExpr
long_docs = ContextExpr.measure (ContextExpr.resource "docs") MeasureUnit.entries

expression_type-IsTyping_example :
    IsTyping long_docs accepted.requirements [] empty_library
      (expression_type debug long_docs accepted.requirements [] empty_library)
unfolding IsGrounded
expression_type-IsTyping_example =
    expression_type-IsTyping debug long_docs accepted.requirements [] empty_library (tt, tt)

check-Distinct_example :
    All (λ id. is_blank id ≡ false) ("each" ∷ "one" ∷ []) × Distinct ("each" ∷ "one" ∷ [])
unfolding block_id
check-Distinct_example =
    check-Distinct debug accepted [] [] empty_library accepted_types accepted_example
