-- ===== src/Context/Evaluate/Whole.antt =====
-- rust/crates/zf-context/src/context.rs: what `evaluate_with_limits` gives for any strategy, as the
-- check before the evaluation rules out what the evaluation cannot bear.
use zedflow.Base.{ℕ, String, ◌≡◌, refl, subst, ◌⊎◌, inl, inr, Option, some, List}
use zedflow.Base.Outcome.{ok, err, Outcome-cases}
use zedflow.Base.Maps.{Map, keys}
use zedflow.Json.{Value}
use zedflow.Core.Diagnostic.{Diagnostic}
use zedflow.Core.Types.{TypeRegistry}
use zedflow.Context.Window.{WindowItems, PreparedWindow}
use zedflow.Context.Window.Capture.{capture}
use zedflow.Context.Language.{ContextStrategy, ContextLibrary, resolved_types}
use zedflow.Context.Check.Blocks.{check}
use zedflow.Context.Check.Accepted.{check-Requires, check-unmerged}
use zedflow.Context.Evaluate.State.{EvaluationLimits, Outside}
use zedflow.Context.Evaluate.Blocks.Identities.{ContextItem, to_items}
use zedflow.Context.Evaluate.Program.{Evaluated, inputs_of, refused, evaluate_with_limits}
use zedflow.Context.Evaluate.Runs.Delivers.{ItemsRead}
use zedflow.Context.Evaluate.Runs.Program.{IsBounded, evaluate_checked-IsBounded, sources_kept}

module _ (outside : Outside) (strategy : ContextStrategy) (resources : Map Value)
    (types : TypeRegistry) (library : ContextLibrary) (limits : EvaluationLimits) where
  -- The strategy was refused with diagnostics, or the evaluation kept within its limits.
  abbrev pub IsAnswer : Evaluated → Type 0
  IsAnswer e =
      ((errors : List Diagnostic) × (check outside.debug strategy (some types) library ≡ err errors)
        × (e ≡ refused outside strategy errors))
      ⊎ ((merged : TypeRegistry) × (resolved_types strategy types ≡ ok merged)
          × IsBounded (inputs_of strategy resources merged library limits) outside e)

  -- Whatever strategy, resources, types, library and limits it is given, `evaluate_with_limits`
  -- answers: it neither panics nor runs out of fuel. Either the check refuses the strategy and the
  -- answer has the check's diagnostics and nothing else, or the items, the trace and the measured sizes
  -- are within the limits and each fragment names only resources that the answer reports as read.
  pub evaluate_with_limits-IsAnswer :
      (e : Evaluated) × (evaluate_with_limits outside strategy resources types library limits
        ≡ some e)
      × IsAnswer e
  unfolding evaluate_with_limits
  evaluate_with_limits-IsAnswer =
      elim (Outcome-cases (check outside.debug strategy (some types) library)) [
        | inr (errors, c) ↦ (
          refused outside strategy errors,
          rw (c, evaluate_with_limits) refl,
          inl (errors, c, refl),
        )
        | inl (x, c) ↦ elim (Outcome-cases (resolved_types strategy types)) [
          | inr (errors, r) ↦
              let refusal = check-unmerged outside.debug strategy (some types) library errors r in
              cc
          | inl (merged, r) ↦
              let (bodies, program) =
                check-Requires outside.debug strategy types merged library resources limits r c in
              let (e, s, ran, bounded) =
                evaluate_checked-IsBounded outside strategy resources merged library limits bodies
                  program in
              (e, rw (c, evaluate_with_limits, r, ran) refl, inr (merged, r, bounded))
        ]
      ]

  -- When the answer for any strategy is captured as a window, every source that one of its fragments
  -- names has its revision in the window.
  pub evaluate_with_limits-sources :
      (chunks : PreparedWindow → List ℕ) (to_value : List ContextItem → Option Value)
      (from_value : Value → Option WindowItems) (revision : String) (sources : Map String)
      (e : Evaluated) (w : PreparedWindow)
      → evaluate_with_limits outside strategy resources types library limits ≡ some e
      → capture chunks to_value from_value strategy.id revision e.0 sources ≡ ok w
      → ItemsRead (keys w.source_revisions) (to_items e.0.items)
  unfolding ItemsRead
  evaluate_with_limits-sources chunks to_value from_value revision sources e w answer captured =
      let (e', answer', is_answer) = evaluate_with_limits-IsAnswer in
      let same : e' ≡ e = cc in
      elim (subst IsAnswer same is_answer) [
        | inl (errors, _, nothing) ↦ rw nothing tt
        | inr (merged, _, bounded) ↦
            sources_kept (inputs_of strategy resources merged library limits) outside e chunks
              to_value from_value strategy.id revision sources w bounded captured
      ]
