-- ===== src/Context/Check/Sound/Conditions.antt =====
-- rust/crates/zf-context/src/context.rs: each arm of `Checker::predicate`.
use zedflow.Base.{ℕ, suc, String, Bool, Option}
use zedflow.Core.Types.{DataType}
use zedflow.Context.Language
use zedflow.Context.Language.{
  ContextExpr, ContextPredicate, ContextPredicates, no_predicates, LibraryKind, projection,
  subprogram, ContextFunction, function_of,
}
use zedflow.Context.Evaluate.State.{Inputs}
use zedflow.Context.Evaluate.Runs.Required.{Requires, RequiresTest, RequiresTests}
use zedflow.Context.Check.{Subject, ◌>>=◌, error_if}
use zedflow.Context.Check.Recursion.{test_each, test_group, test_node}
use zedflow.Context.Check.Grounded.{IsGrounded}
use zedflow.Context.Check.Sound.{sound-answer, sound-weaken, ◌⟫◌}
use zedflow.Context.Check.Sound.Reports.{sound-error_if}
use zedflow.Context.Check.Sound.Terms.{Keeps, Calls, of_found}

module _ (inputs : Inputs) (given : Subject) (calls : Calls inputs given) where
  sound-test_each :
      (ps : ContextPredicates) {H : Type 0} (i : ℕ) (path : String)
      → Keeps inputs given H
          (λ _. RequiresTests inputs ps)
          (test_each given calls.eval calls.test calls.function ps i path)
  unfolding test_each RequiresTest
  sound-test_each no_predicates i path = sound-answer tt (λ h. tt)
  sound-test_each (Language.predicate p ps) i path = calls.sound_test _ p _ ⟫ λ _.
      sound-weaken (λ h. h) (λ _ h later. (h.1, later)) (sound-test_each ps (suc i) path)

  sound-test_group :
      (ps : ContextPredicates) {H : Type 0} (path : String)
      → Keeps inputs given H
          (λ _. RequiresTests inputs ps)
          (test_group given calls.eval calls.test calls.function ps path)
  unfolding test_group
  sound-test_group ps path = sound-error_if _ _ _ _ ⟫ λ _. sound-test_each ps 0 path

  -- Two terms are typed before a test of their types is reported.
  sound-both :
      {H : Type 0} (left right : ContextExpr) (l r : String)
      (bad : Option DataType → Option DataType → Bool) (code path message : String)
      → Keeps inputs given H
          (λ _. Requires inputs left × Requires inputs right)
          (calls.eval left l >>= λ a.
            calls.eval right r >>= λ b. error_if (bad a b) code path message)
  sound-both left right l r bad code path message = calls.sound_eval _ left l ⟫ λ a.
      calls.sound_eval _ right r ⟫ λ b.
      sound-weaken (λ h. h)
        (λ _ h _.
          (of_found (IsGrounded given.types) a h.0.1, of_found (IsGrounded given.types) b h.1))
        (sound-error_if _ _ _ _)

  pub sound-test_node :
      {H : Type 0} (p : ContextPredicate) (path : String)
      → Keeps inputs given H
          (λ _. RequiresTest inputs p)
          (test_node given calls.eval calls.test calls.function p path)
  unfolding test_node RequiresTest
  sound-test_node (ContextPredicate.compare left operator right) path =
      sound-both left right _ _ _ _ _ _
  sound-test_node (ContextPredicate.contains value item) path = sound-both value item _ _ _ _ _ _
  sound-test_node (ContextPredicate.eq left right) path = sound-both left right _ _ _ _ _ _
  sound-test_node (ContextPredicate.present value) path = calls.sound_eval _ value _ ⟫ λ o.
      sound-answer tt (λ h. of_found (IsGrounded given.types) o h.1)
  sound-test_node (ContextPredicate.and ps) path = sound-test_group ps path
  sound-test_node (ContextPredicate.or ps) path = sound-test_group ps path
  sound-test_node (ContextPredicate.negate p) path = calls.sound_test _ p _
