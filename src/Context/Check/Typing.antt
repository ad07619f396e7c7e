-- ===== src/Context/Check/Typing.antt =====
-- rust/crates/zf-context/src/context.rs: what the typing of an expression gives.
use zedflow.Base.{
  String, ◌≡◌, ◌≢◌, ◌≤◌, refl, Option, none, some, List, [], ◌∷◌, length, All, arith,
}
use zedflow.Base.Outcome.{Outcome, ok, err}
use zedflow.Base.Maps.{Map, values}
use zedflow.Core.Diagnostic.{Diagnostic}
use zedflow.Core.Types.{DataType, TypeRegistry}
use zedflow.Context.Language.{ContextStrategy, ContextLibrary, ContextExpr}
use zedflow.Context.Evaluate.State.{default_limits}
use zedflow.Context.Evaluate.Program.{inputs_of}
use zedflow.Context.Evaluate.Runs.Required.{Requires}
use zedflow.Context.Check.Blocks.{subject_of, new_checker}
use zedflow.Context.Check.Entries.{new_strategy, inferred, expression_type}
use zedflow.Context.Check.Grounded.{Found, IsGrounded}
use zedflow.Context.Check.Sound.Recursion.{level}

-- The strategy as which an expression is checked.
abbrev pub expression_strategy : Map DataType → ContextStrategy
expression_strategy requirements = record (new_strategy "expression" "Expression") {
  requirements = requirements;
}

-- What the typing of an expression gives where the names in the requirements' types all unfold.
abbrev pub IsTyping :
    ContextExpr
    → Map DataType
    → TypeRegistry
    → ContextLibrary
    → Outcome (List Diagnostic) DataType
    → Type 0
IsTyping e requirements types library (ok t) =
    IsGrounded types t
    × Requires (inputs_of (expression_strategy requirements) [] types library default_limits) e
IsTyping e requirements types library (err ds) = (ds ≢ []) × (length ds ≤ 64)

typing :
    (debug : DataType → String) (e : ContextExpr) (requirements : Map DataType)
    (types : TypeRegistry) (library : ContextLibrary) (o : Option DataType) (ds : List Diagnostic)
    → length ds ≤ 64
    → (ds ≡ []
        → Found
            (λ t.
              IsGrounded types t
              × Requires
                  (inputs_of (expression_strategy requirements) [] types library default_limits)
                  e)
            o)
    → IsTyping e requirements types library (inferred o ds)
typing debug e requirements types library none [] le h = absurd (h refl)
typing debug e requirements types library (some t) [] le h = h refl
typing debug e requirements types library none (d ∷ ds) le h = ((λ e. cc), le)
typing debug e requirements types library (some t) (d ∷ ds) le h = ((λ e. cc), le)

-- Where every name in the types of the requirements unfolds, the typing of an expression either gives
-- a type whose names all unfold, and the expression then names only resources that are required, or at
-- least one diagnostic and at most 64.
pub expression_type-IsTyping :
    (debug : DataType → String) (e : ContextExpr) (requirements : Map DataType)
    (types : TypeRegistry) (library : ContextLibrary)
    → All (IsGrounded types) (values requirements)
    → IsTyping e requirements types library (expression_type debug e requirements types library)
unfolding expression_type
expression_type-IsTyping debug e requirements types library grounded =
    let strategy = expression_strategy requirements in
    let inputs = inputs_of strategy [] types library default_limits in
    let given = subject_of debug strategy (some types) types library in
    let s = (level inputs given refl 65).expression (Unit {0}) e "expression" in
    typing debug e requirements types library _ _ (s.bound new_checker (omega arith)) (λ clean.
      (s.sound new_checker clean
        (record { ready = grounded; linked = refl; variables = tt; done = λ kind name f h. cc })
        tt).0)
