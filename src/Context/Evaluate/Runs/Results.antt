-- ===== src/Context/Evaluate/Runs/Results.antt =====
-- rust/crates/zf-context/src/context.rs: the relation of the `Evaluator` with a fact about the
-- result that a method gives.
use zedflow.Base.Outcome.{Outcome, ok, err}
use zedflow.Context.Evaluate.State.{
  AccessError, missing, invalid, Inputs, Evaluator, Answer, gave, panicked, exhausted, Action,
  and_then,
}
use zedflow.Context.Evaluate.Runs.{Ends, Runs, Runs-trans, Within, Known, After}

abbrev pub Fact : Type 0 → Type 1
Fact A = A → Evaluator → Type 0

abbrev pub Result : {A : Type 0} → Fact A → Outcome AccessError A → Evaluator → Type 0
Result P (ok a) t = P a t
Result P (err e) t = Unit

module _ (given : Inputs) where
  abbrev pub AfterWith :
      {A : Type 0} → Fact A → Evaluator → Outcome AccessError A → Evaluator → Type 0
  AfterWith P s o t = Known given o × Runs s t × Within given t × Result P o t

  pub with_first :
      {A : Type 0} (P : Fact A) (s t : Evaluator) (r : Answer A)
      → Runs s t
      → Ends (AfterWith P t) r
      → Ends (AfterWith P s) r
  with_first P s t (gave o u) first (known, runs, within, fact) =
      (known, Runs-trans s t u first runs, within, fact)
  with_first P s t panicked first ends = ends
  with_first P s t exhausted first ends = ends

  -- `m?` with nothing to say of its result, then a method that says something of its own.
  pub then_with :
      {A B : Type 0} (Q : Fact B) (s : Evaluator) (r : Answer A) (f : A → Action B)
      → Ends (After given s) r
      → ((a : A) (t : Evaluator) → Runs s t → Within given t → Ends (AfterWith Q t) (f a t))
      → Ends (AfterWith Q s) (and_then r f)
  unfolding and_then
  then_with Q s (gave (ok a) t) f (_, runs, within) next =
      with_first Q s t (f a t) runs (next a t runs within)
  then_with Q s (gave (err (missing name)) t) f (known, runs, within) next =
      (known, runs, within, tt)
  then_with Q s (gave (err invalid) t) f (known, runs, within) next = (tt, runs, within, tt)
  then_with Q s panicked f ends next = ends
  then_with Q s exhausted f ends next = ends
