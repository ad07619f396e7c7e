-- ===== src/Context/Check/Entries.antt =====
-- rust/crates/zf-context/src/context.rs: the functions by which other crates check strategies,
-- libraries and expressions.
use zedflow.Base.{String, Option, none, some, List, [], ◌∷◌}
use zedflow.Base.Outcome.{Outcome, ok, err}
use zedflow.Base.Maps.{Map}
use zedflow.Core.Diagnostic.{Diagnostic, diagnostic}
use zedflow.Core.Types.{DataType, TypeRegistry}
use zedflow.Context.Language.{ContextStrategy, ContextLibrary, ContextExpr, no_blocks}
use zedflow.Context.Check.Blocks.{check, subject_of, new_checker}
use zedflow.Context.Check.Recursion.{check_expression}

-- `ContextStrategy::new`
abbrev pub new_strategy : String → String → ContextStrategy
new_strategy id name = record {
  version = 1;
  id = id;
  name = name;
  types = [];
  requirements = [];
  capabilities = [];
  program = no_blocks;
}

abbrev pub empty_library : ContextLibrary
empty_library = record { projections = []; subprograms = [] }

-- The end of `expression_type`
abbrev pub inferred : Option DataType → List Diagnostic → Outcome (List Diagnostic) DataType
inferred (some t) [] = ok t
inferred none [] =
    err (diagnostic "expression_type" "expression" "Expression has no concrete type" ∷ [])
inferred o (d ∷ ds) = err (d ∷ ds)

module _ (debug : DataType → String) where
  abbrev pub validate_strategy_with_library :
      ContextStrategy → TypeRegistry → ContextLibrary → Outcome (List Diagnostic) (Unit {0})
  validate_strategy_with_library strategy types library = check debug strategy (some types) library

  abbrev pub validate_strategy :
      ContextStrategy → TypeRegistry → Outcome (List Diagnostic) (Unit {0})
  validate_strategy strategy types = validate_strategy_with_library strategy types empty_library

  abbrev pub validate_structure : ContextStrategy → Outcome (List Diagnostic) (Unit {0})
  validate_structure strategy = check debug strategy none empty_library

  abbrev pub validate_library_structure : ContextLibrary → Outcome (List Diagnostic) (Unit {0})
  validate_library_structure library =
      check debug (new_strategy "library" "Context library") none library

  abbrev pub validate_library : ContextLibrary → TypeRegistry → Outcome (List Diagnostic) (Unit {0})
  validate_library library types =
      validate_strategy_with_library (new_strategy "library" "Context library") types library

  unfoldable pub expression_type :
      ContextExpr
      → Map DataType
      → TypeRegistry
      → ContextLibrary
      → Outcome (List Diagnostic) DataType
  expression_type e requirements types library =
      let strategy : ContextStrategy = record (new_strategy "expression" "Expression") {
        requirements = requirements;
      } in
      let given = subject_of debug strategy (some types) types library in
      let (t, c) = check_expression given 65 e "expression" new_checker in inferred t c.diagnostics
