-- ===== src/Context/Evaluate/Program.antt =====
-- rust/crates/zf-context/src/context.rs: `evaluate_with_limits`; `evaluate_checked` is the part from
-- the point where the strategy was checked and its types were resolved.
-- The fuel of the expressions is one more than the operation budget.
use zedflow.Base.{suc, false, ◌&&◌, Option, none, some, List, []}
use zedflow.Base.Outcome.{ok, err}
use zedflow.Core.Diagnostic.{Diagnostic}
use zedflow.Base.Maps.{Map, values}
use zedflow.Base.Sets.{Set}
use zedflow.Json.{Value}
use zedflow.Core.Types.{TypeRegistry}
use zedflow.Context.Window.Capture.{ContextEvaluation, none_of}
use zedflow.Context.Language.{ContextStrategy, ContextLibrary, block_ids, resolved_types}
use zedflow.Context.Check.Entries.{empty_library, validate_strategy_with_library}
use zedflow.Context.Evaluate.State.{
  EvaluationLimits, default_limits, ContextTrace, Inputs, Outside, Evaluator, Answer, gave,
  and_then,
}
use zedflow.Context.Evaluate.Blocks.{blocks_from}
use zedflow.Context.Evaluate.Blocks.Identities.{ContextItem}

abbrev pub Evaluated : Type 0
Evaluated = ContextEvaluation (List ContextItem) × List ContextTrace

abbrev pub fresh : Set → Evaluator
fresh ids = record {
  needs = [];
  diagnostics = [];
  validated = [];
  variables = [];
  steps = 0;
  output_bytes = 0;
  derived_bytes = 0;
  reads = [];
  all_reads = [];
  variable_sources = [];
  trace = [];
  iterations = [];
  output_ids = ids;
  output_items = 0;
}

abbrev pub inputs_of :
    ContextStrategy → Map Value → TypeRegistry → ContextLibrary → EvaluationLimits → Inputs
inputs_of strategy resources types library limits = record {
  requirements = strategy.requirements;
  resources = resources;
  types = types;
  library = library;
  limits = limits;
}

abbrev pub evaluation_of : ContextStrategy → List ContextItem → Evaluator → Evaluated
evaluation_of strategy items s = (
  record {
    complete = none_of s.needs && none_of s.diagnostics;
    items = items;
    capabilities = strategy.capabilities;
    needs = values s.needs;
    diagnostics = s.diagnostics;
    reads = s.all_reads;
  },
  s.trace,
)

-- The answer of a run that returned
abbrev pub answered : Answer Evaluated → Option Evaluated
answered (gave (ok e) s) = some e
answered _ = none

module _ (outside : Outside) where
  unfoldable pub evaluate_checked :
      ContextStrategy
      → Map Value
      → TypeRegistry
      → ContextLibrary
      → EvaluationLimits
      → Answer Evaluated
  unfolding blocks_from
  evaluate_checked strategy resources types library limits =
      let given = inputs_of strategy resources types library limits in
      let start = fresh (block_ids strategy.program []) in
      and_then (blocks_from given outside (suc limits.max_steps) strategy.program 0 "program" start)
        (λ items s. gave (ok (evaluation_of strategy items s)) s)

  -- What is answered before anything is evaluated.
  abbrev pub refused : ContextStrategy → List Diagnostic → Evaluated
  refused strategy errors = (
    record {
      complete = false;
      items = [];
      capabilities = strategy.capabilities;
      needs = [];
      diagnostics = errors;
      reads = [];
    },
    [],
  )

  -- `evaluate_with_limits`; there is no answer when it panics or when the fuel has run out.
  unfoldable pub evaluate_with_limits :
      ContextStrategy
      → Map Value
      → TypeRegistry
      → ContextLibrary
      → EvaluationLimits
      → Option Evaluated
  evaluate_with_limits strategy resources types library limits =
      elim (validate_strategy_with_library outside.debug strategy types library) [
        | err errors ↦ some (refused strategy errors)
        | ok _ ↦ elim (resolved_types strategy types) [
          | err errors ↦ some (refused strategy errors)
          | ok merged ↦ answered (evaluate_checked strategy resources merged library limits)
        ]
      ]

  abbrev pub evaluate_with_library :
      ContextStrategy → Map Value → TypeRegistry → ContextLibrary → Option Evaluated
  evaluate_with_library strategy resources types library =
      evaluate_with_limits strategy resources types library default_limits

  abbrev pub evaluate : ContextStrategy → Map Value → TypeRegistry → Option Evaluated
  evaluate strategy resources types = evaluate_with_library strategy resources types empty_library
