-- ===== src/Context/Evaluate/Runs/Loops.antt =====
-- rust/crates/zf-context/src/context.rs: a loop over the items of a collection keeps the relation of
-- the `Evaluator`, when the sources that each item is given were read before the loop.
use zedflow.Base.{ℕ, zero, suc, ◌+◌, ◌<◌, String, List, [], ◌++◌}
use zedflow.Base.Sets.{Set}
use zedflow.Context.Evaluate.Values.{ContextValue}
use zedflow.Context.Evaluate.State.{Inputs, Evaluator, Action, ◌>>=◌, observe, scoped}
use zedflow.Context.Evaluate.Terms.Lists.{collect}
use zedflow.Context.Evaluate.Runs.{
  Ends, Subset, Within, After, Safe, and_then_ends, fuel_left, safe-pure,
}
use zedflow.Context.Evaluate.Runs.Scopes.{safe-scoped}

module _ (given : Inputs) where
  -- A method that is safe once the given names have been read.
  unfoldable pub SafeFrom : {A : Type 0} → Set → ℕ → Action A → Type 0
  SafeFrom sources n m =
      (s : Evaluator)
      → Within given s
      → given.limits.max_steps < s.steps + n
      → Subset sources s.all_reads
      → Ends (After given s) (m s)

  module _ (sources : Set) (n : ℕ) where
    pub from-safe : {A : Type 0} (m : Action A) → Safe given n m → SafeFrom sources n m
    unfolding SafeFrom Safe
    from-safe m safe s within fuel known = safe s within fuel

    pub from-bind :
        {A B : Type 0} (m : Action A) (f : A → Action B)
        → SafeFrom sources n m
        → ((a : A) → SafeFrom sources n (f a))
        → SafeFrom sources n (m >>= f)
    unfolding SafeFrom
    from-bind m f first next s within fuel known =
        and_then_ends given n s (m s) f (first s within fuel known) (λ a t runs within'.
          next a t within' (fuel_left given n s t runs fuel)
            (λ x h. runs.moves.all_reads x (known x h)))

    pub from-scoped :
        {A : Type 0} (name : String) (v : ContextValue) (m : Action A)
        → Safe given n m
        → SafeFrom sources n (scoped name v sources m)
    unfolding SafeFrom
    from-scoped name v m = safe-scoped given n name v sources m

    pub from-collect :
        {B : Type 0} (turn : ℕ → Action (List B)) (i count : ℕ)
        → ((j : ℕ) → SafeFrom sources n (turn j))
        → SafeFrom sources n (collect turn i count)
    unfolding collect
    from-collect turn i zero turns = from-safe _ (safe-pure given n [])
    from-collect turn i (suc count) turns = from-bind _ _ (turns i) λ here.
        from-bind _ _ (from-collect turn (suc i) count turns)
          λ later. from-safe _ (safe-pure given n (here ++ later))

  -- A loop whose items were read from what has been read so far.
  pub safe-from_reads :
      {A : Type 0} (n : ℕ) (f : Set → Action A)
      → ((sources : Set) → SafeFrom sources n (f sources))
      → Safe given n (observe (λ s. s.reads) f)
  unfolding Safe SafeFrom
  safe-from_reads n f each s within fuel = each s.reads s within fuel within.reads
