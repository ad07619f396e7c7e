-- ===== src/Context/Evaluate/Runs/Steps.antt =====
-- rust/crates/zf-context/src/context.rs: the small operations of the `Evaluator` keep its relation.
use zedflow.Base.{
  ℕ, suc, ◌+◌, ◌-◌, ◌≤◌, ◌<◌, String, ◌≡◌, refl, inl, inr, Bool, true, false, Option, none, some,
  List, arith, leb, ltb, if◌then◌else◌, length, Bool-cases,
}
use zedflow.Base.Outcome.{ok}
use zedflow.Base.Maps.{Map}
use zedflow.Base.Sets.{Set}
use zedflow.Json.{Value}
use zedflow.Core.Diagnostic.{Diagnostic}
use zedflow.Context.Window.Capture.{ResourceNeed}
use zedflow.Context.Evaluate.Values.{ContextValue, array_len}
use zedflow.Context.Evaluate.State.{
  Inputs, Evaluator, gave, Action, note, error, or_error, tick, items, charge, bytes, and_then,
  ◌>>◌,
}
use zedflow.Context.Evaluate.Runs.{
  Ends, Subset, Runs, Within, After, Safe, Runs-refl, After-first, safe-bind, safe-pure,
  safe-or_invalid,
}

module _ (given : Inputs) where
  -- The fields that no promise of the evaluator mentions may change.
  pub keep_rest :
      (s : Evaluator) (needs : Map ResourceNeed) (ds : List Diagnostic) (names ids : Set)
      → Subset s.output_ids ids
      → Within given s
      → let t : Evaluator = record s {
        needs = needs;
        diagnostics = ds;
        validated = names;
        output_ids = ids;
      } in
        Runs s t × Within given t
  keep_rest s needs ds names ids grows w = (
    record {
      moves = record {
        steps = omega arith;
        all_reads = λ x h. h;
        output_ids = grows;
        iterations = refl;
        output_items = omega arith;
        output_bytes = omega arith;
      };
      variables = λ k. refl;
      sources = λ k. refl;
    },
    record {
      steps = w.steps;
      derived = w.derived;
      output = w.output;
      items = w.items;
      trace = w.trace;
      reads = w.reads;
      sources = w.sources;
    },
  )

  pub keep_diagnostics :
      (s : Evaluator) (ds : List Diagnostic)
      → Within given s
      → Runs s (record s { diagnostics = ds }) × Within given (record s { diagnostics = ds })
  keep_diagnostics s ds w = keep_rest s s.needs ds s.validated s.output_ids (λ x h. h) w

  pub keep_note :
      (s : Evaluator) (path message : String)
      → Within given s
      → Runs s (note path message s) × Within given (note path message s)
  unfolding note
  keep_note s path message w = elim (Bool-cases (ltb (length s.diagnostics) 64)) [
    | inl e ↦ rw e (keep_diagnostics s _ w)
    | inr e ↦ rw e (Runs-refl given s, w)
  ]

  -- A method that ends in a state has nothing to say of an unavailable resource.
  pub settled : (s t : Evaluator) → Runs s t × Within given t → Unit {0} × Runs s t × Within given t
  settled s t (runs, within) = (tt, runs, within)

  pub safe-error :
      (A : Type 0) (n : ℕ) (path message : String) → Safe given {A = A} n (error path message)
  unfolding Safe
  safe-error A n path message s w fuel = settled s _ (keep_note s path message w)

  keep_tick :
      (s : Evaluator)
      → Within given s
      → s.steps < given.limits.max_steps
      → Runs s (record s { steps = s.steps + 1 }) × Within given (record s { steps = s.steps + 1 })
  keep_tick s w room = (
    record {
      moves = record {
        steps = omega arith;
        all_reads = λ x h. h;
        output_ids = λ x h. h;
        iterations = refl;
        output_items = omega arith;
        output_bytes = omega arith;
      };
      variables = λ k. refl;
      sources = λ k. refl;
    },
    record {
      steps = omega (arith, room);
      derived = w.derived;
      output = w.output;
      items = w.items;
      trace = w.trace;
      reads = w.reads;
      sources = w.sources;
    },
  )

  pub safe-tick : (n : ℕ) (path : String) → Safe given n (tick given path)
  unfolding tick Safe
  safe-tick n path s w fuel = elim (Bool-cases (leb given.limits.max_steps s.steps)) [
    | inl e ↦ rw e (settled s _ (keep_note s path _ w))
    | inr e ↦ rw e (settled s _ (keep_tick s w (ground (arith, e))))
  ]

  -- A recursive call starts with its tick, which pays for one unit of fuel.
  step_ends :
      {A : Type 0} (n : ℕ) (k : Action A) (s : Evaluator) (b : Bool) (path message : String)
      → leb given.limits.max_steps s.steps ≡ b
      → Within given s
      → given.limits.max_steps < s.steps + suc n
      → Safe given n k
      → Ends (After given s) (
          and_then
            (if b then error path message s else gave (ok tt) (record s { steps = s.steps + 1 }))
            (λ _. k))
  unfolding and_then Safe
  step_ends n k s true path message e w fuel next = settled s _ (keep_note s path message w)
  step_ends n k s false path message e w fuel next =
      let t : Evaluator = record s { steps = s.steps + 1 } in
      let (runs, within) = keep_tick s w (ground (arith, e)) in
      After-first given s t (k t) runs (next t within (omega (arith, fuel)))

  pub safe-step :
      {A : Type 0} (n : ℕ) (path : String) (k : Action A)
      → Safe given n k
      → Safe given (suc n) (tick given path >> k)
  unfolding tick Safe
  safe-step n path k next s w fuel =
      step_ends n k s (leb given.limits.max_steps s.steps) path _ refl w fuel next

  pub safe-items : (n : ℕ) (v : ContextValue) (path : String) → Safe given n (items given v path)
  unfolding items
  safe-items n v path = safe-bind given n _ _ (safe-or_invalid given n (array_len v)) λ count.
      elim (Bool-cases (ltb given.limits.max_items count)) [
        | inl e ↦ rw e (safe-error ℕ n path _)
        | inr e ↦ rw e (safe-pure given n count)
      ]

  pub safe-or_error :
      (A : Type 0) (n : ℕ) (o : Option A) (path message : String)
      → Safe given n (or_error o path message)
  safe-or_error A n (some a) path message = safe-pure given n a
  safe-or_error A n none path message = safe-error A n path message

  pub safe-bytes :
      (chunks : Value → List ℕ) (n : ℕ) (v : ContextValue) (path : String)
      → Safe given n (bytes given chunks v path)
  unfolding bytes
  safe-bytes chunks n v path = safe-or_error ℕ n _ path _

  keep_charge :
      (s : Evaluator) (size : ℕ)
      → Within given s
      → s.derived_bytes + size ≤ given.limits.max_bytes
      → Runs s (record s { derived_bytes = s.derived_bytes + size })
        × Within given (record s { derived_bytes = s.derived_bytes + size })
  keep_charge s size w room = (
    record {
      moves = record {
        steps = omega arith;
        all_reads = λ x h. h;
        output_ids = λ x h. h;
        iterations = refl;
        output_items = omega arith;
        output_bytes = omega arith;
      };
      variables = λ k. refl;
      sources = λ k. refl;
    },
    record {
      steps = w.steps;
      derived = room;
      output = w.output;
      items = w.items;
      trace = w.trace;
      reads = w.reads;
      sources = w.sources;
    },
  )

  pub safe-charge : (n size : ℕ) (path : String) → Safe given n (charge given size path)
  unfolding charge Safe
  safe-charge n size path s w fuel =
      elim (Bool-cases (ltb (given.limits.max_bytes - s.derived_bytes) size)) [
        | inl e ↦ rw e (settled s _ (keep_note s path _ w))
        | inr e ↦ rw e (settled s _ (keep_charge s size w (ground (arith, e, w.derived))))
      ]
