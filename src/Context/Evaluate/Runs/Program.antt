-- ===== src/Context/Evaluate/Runs/Program.antt =====
-- rust/crates/zf-context/src/context.rs and window.rs: what the evaluation of a checked strategy
-- gives, and what a window captured from it may rely on.
use zedflow.Base.{
  ℕ, suc, ◌+◌, ◌≤◌, ◌<◌, String, ◌≡◌, refl, sym, subst, inl, inr, true, Option, List, [], ◌∷◌,
  arith, length, contains, str_eq, eq_iff, All, Bool-cases,
}
use zedflow.Base.Outcome.{ok, err}
use zedflow.Base.Maps
use zedflow.Base.Maps.{Map, keys, contains_key}
use zedflow.Base.Sets.{Set}
use zedflow.Json.{Value}
use zedflow.Core.Types.{TypeRegistry}
use zedflow.Context.Window.{WindowItems, PreparedWindow}
use zedflow.Context.Window.Capture.{capture, capture-IsWellFormed}
use zedflow.Context.Language.{
  ContextExpr, ContextPredicate, ContextStrategy, ContextLibrary, block_ids,
}
use zedflow.Context.Evaluate.State.{
  EvaluationLimits, Inputs, Outside, Evaluator, Answer, gave, panicked, exhausted, and_then,
}
use zedflow.Context.Evaluate.Expressions.{expression, predicate}
use zedflow.Context.Evaluate.Blocks.Identities.{ContextItem, to_items}
use zedflow.Context.Evaluate.Program.{Evaluated, fresh, inputs_of, evaluation_of, evaluate_checked}
use zedflow.Context.Evaluate.Runs.{Ends, Within, After, Safe}
use zedflow.Context.Evaluate.Runs.Required.{Requires, RequiresTest, RequiresBlocks, RequiresLibrary}
use zedflow.Context.Evaluate.Runs.Expressions.{safe-expression, safe-predicate}
use zedflow.Context.Evaluate.Runs.Delivers.{
  ItemsRead, items_count, items_size, weight, Delivers, self, items_grow,
}
use zedflow.Context.Evaluate.Runs.Blocks.{blocks_from-ends}

-- An evaluation within its limits, whose fragments name only resources among its reads.
pub record IsBounded (given : Inputs) (outside : Outside) (e : Evaluated) : Type 0 where
  pub read : ItemsRead e.0.reads (to_items e.0.items)
  pub items : items_count (to_items e.0.items) ≤ given.limits.max_items
  pub bytes : items_size (weight given outside) (to_items e.0.items) ≤ given.limits.max_bytes
  pub trace : length e.1 ≤ given.limits.max_items

-- An expression whose resources are required, over a library with such bodies, is evaluated with no
-- panic from any state within its budgets, and any fuel above the steps that are left is enough. The
-- budgets are kept, the variables and their sources are restored, the reads grow, and a resource
-- that is reported as unavailable is one that the strategy requires.
pub expression-ends :
    (given : Inputs) (outside : Outside) (n : ℕ) (e : ContextExpr) (path : String) (s : Evaluator)
    → RequiresLibrary given
    → Requires given e
    → Within given s
    → given.limits.max_steps < s.steps + n
    → Ends (After given s) (expression given outside n e path s)
unfolding Safe
expression-ends given outside n e path s library required w fuel =
    safe-expression given outside library n e path required s w fuel

-- The same of a condition.
pub predicate-ends :
    (given : Inputs) (outside : Outside) (n : ℕ) (p : ContextPredicate) (path : String)
    (s : Evaluator)
    → RequiresLibrary given
    → RequiresTest given p
    → Within given s
    → given.limits.max_steps < s.steps + n
    → Ends (After given s) (predicate given outside n p path s)
unfolding Safe
predicate-ends given outside n p path s library required w fuel =
    safe-predicate given outside library n p path required s w fuel

pub fresh-Within : (given : Inputs) (ids : Set) → Within given (fresh ids)
unfolding Maps.get
fresh-Within given ids = record {
  steps = omega arith;
  derived = omega arith;
  output = omega arith;
  items = omega arith;
  trace = omega arith;
  reads = λ x h. cc;
  sources = λ k xs h. cc;
}

evaluated :
    (given : Inputs) (outside : Outside) (strategy : ContextStrategy) (start : Evaluator)
    (r : Answer (List ContextItem))
    → Ends (Delivers given outside (self given outside) start) r
    → (e : Evaluated) × (s : Evaluator) × (and_then r
          (λ items s'. gave (ok (evaluation_of strategy items s')) s')
        ≡ gave (ok e) s)
      × IsBounded given outside e
unfolding Delivers and_then
evaluated given outside strategy start (gave (ok items) s) (runs, w, made) = (
  evaluation_of strategy items s,
  s,
  refl,
  record {
    read = made.read;
    items = omega (arith, made.items, w.items);
    bytes = omega (arith, made.bytes, w.output);
    trace = w.trace;
  },
)
evaluated given outside strategy start (gave (err e) s) ends = elim ends [ ]
evaluated given outside strategy start panicked ends = elim ends [ ]
evaluated given outside strategy start exhausted ends = elim ends [ ]

-- The evaluation of a strategy whose program and library require the resources that they name always
-- gives an evaluation: it neither fails nor panics, and the fuel is enough. Its items, those inside of
-- groups included, its trace and the measured sizes of its fragments are within the limits, and every
-- fragment names only resources that the evaluation reports as read.
pub evaluate_checked-IsBounded :
    (outside : Outside) (strategy : ContextStrategy) (resources : Map Value) (types : TypeRegistry)
    (library : ContextLibrary) (limits : EvaluationLimits)
    → RequiresLibrary (inputs_of strategy resources types library limits)
    → RequiresBlocks (inputs_of strategy resources types library limits) strategy.program
    → (e : Evaluated) × (s : Evaluator) × (evaluate_checked outside strategy resources types library
          limits
        ≡ gave (ok e) s)
      × IsBounded (inputs_of strategy resources types library limits) outside e
unfolding evaluate_checked
evaluate_checked-IsBounded outside strategy resources types library limits bodies required =
    let start = fresh (block_ids strategy.program []) in
    let given = inputs_of strategy resources types library limits in
    evaluated given outside strategy start _ (
      blocks_from-ends given outside (suc limits.max_steps) (omega arith) bodies strategy.program 0
        "program" start required (fresh-Within _ _))

All_contains :
    (P : String → Type 0) (xs : List String) (x : String) → All P xs → contains xs x ≡ true → P x
All_contains P [] x ps h = cc
All_contains P (y ∷ xs) x (p, ps) h = elim (Bool-cases (str_eq y x)) [
  | inl e ↦ subst P ((eq_iff y x).0 e) p
  | inr e ↦ All_contains P xs x ps (ground (arith, e, h))
]

contains-keys :
    {V : Type 0} (m : Map V) (k : String) → contains_key m k ≡ true → contains (keys m) k ≡ true
unfolding Maps.get
contains-keys [] k h = h
contains-keys ((j, v) ∷ m) k h = elim (Bool-cases (str_eq j k)) [
  | inl e ↦ ground (arith, e)
  | inr e ↦ ground (arith, e, h, contains-keys m k)
]

pub sources_kept :
    (given : Inputs) (outside : Outside) (e : Evaluated) (chunks : PreparedWindow → List ℕ)
    (to_value : List ContextItem → Option Value) (from_value : Value → Option WindowItems)
    (strategy revision : String) (sources : Map String) (w : PreparedWindow)
    → IsBounded given outside e
    → capture chunks to_value from_value strategy revision e.0 sources ≡ ok w
    → ItemsRead (keys w.source_revisions) (to_items e.0.items)
sources_kept given outside e chunks to_value from_value strategy revision sources w bounded h =
    let (_, capturable, _, _, same) =
      capture-IsWellFormed chunks to_value from_value strategy revision e.0 sources w h in
    items_grow e.0.reads (keys w.source_revisions)
      (λ x r.
        subst (λ m. contains (keys m) x ≡ true) (sym same)
          (contains-keys sources x
            (All_contains (λ y. contains_key sources y ≡ true) e.0.reads x capturable.reads r)))
      (to_items e.0.items) bounded.read
