-- ===== src/Context/Evaluate/Runs/Scopes.antt =====
-- rust/crates/zf-context/src/context.rs: what a step keeps for which a variable is bound.
use zedflow.Base.{ℕ, ◌+◌, ◌<◌, String, ◌≡◌, sym, ◌∙◌, subst, inl, inr, some}
use zedflow.Base.Maps
use zedflow.Base.Maps.{Map, get-insert-other, get-insert-cases}
use zedflow.Base.Sets.{Set}
use zedflow.Context.Evaluate.Values.{ContextValue}
use zedflow.Context.Evaluate.State.{
  Inputs, Evaluator, Answer, gave, panicked, exhausted, Action, handled, bind_item, unbind_item,
  scoped,
}
use zedflow.Context.Evaluate.Runs.{Ends, Subset, Agree, restore-Agree, Within, After, Safe}

module _ (given : Inputs) where
  -- The state in which the body for an item starts.
  enter_bind :
      (s : Evaluator) (name : String) (v : ContextValue) (sources : Set)
      → Within given s
      → Subset sources s.all_reads
      → Within given (bind_item name v sources s)
  enter_bind s name v sources w known = record {
    steps = w.steps;
    derived = w.derived;
    output = w.output;
    items = w.items;
    trace = w.trace;
    reads = w.reads;
    sources = λ k xs found. elim (get-insert-cases s.variable_sources name k sources xs found) [
      | inl (_, same) ↦ subst (λ z. Subset z s.all_reads) same known
      | inr (_, older) ↦ w.sources k xs older
    ];
  }

  -- The sources of what is found in a map that agrees with a sound one.
  pub sound_sources :
      (m n : Map Set) (a b : Set)
      → Agree n m
      → Subset a b
      → ((k : String) (xs : Set) → Maps.get m k ≡ some xs → Subset xs a)
      → (k : String) (xs : Set) → Maps.get n k ≡ some xs
      → Subset xs b
  sound_sources m n a b same grows sound k xs found x h =
      grows x (sound k xs (sym (same k) ∙ found) x h)

  scoped_ends :
      {A : Type 0} (s : Evaluator) (name : String) (v : ContextValue) (sources : Set) (r : Answer A)
      → Within given s
      → Ends (After given (bind_item name v sources s)) r
      → Ends (After given s) (handled r (λ o t. gave o (unbind_item name s t)))
  unfolding handled
  scoped_ends s name v sources panicked w ends = ends
  scoped_ends s name v sources exhausted w ends = ends
  scoped_ends s name v sources (gave o t) w (known, runs, within) =
      let variables =
        restore-Agree s.variables t.variables name
          (λ k other. runs.variables k ∙ get-insert-other s.variables name k v other) in
      let origins =
        restore-Agree s.variable_sources t.variable_sources name
          (λ k other. runs.sources k ∙ get-insert-other s.variable_sources name k sources other) in
      (
        known,
        record {
          moves = record {
            steps = runs.moves.steps;
            all_reads = runs.moves.all_reads;
            output_ids = runs.moves.output_ids;
            iterations = runs.moves.iterations;
            output_items = runs.moves.output_items;
            output_bytes = runs.moves.output_bytes;
          };
          variables = variables;
          sources = origins;
        },
        record {
          steps = within.steps;
          derived = within.derived;
          output = within.output;
          items = within.items;
          trace = within.trace;
          reads = within.reads;
          sources =
              sound_sources s.variable_sources _ s.all_reads t.all_reads origins
                runs.moves.all_reads w.sources;
        },
      )

  pub safe-scoped :
      {A : Type 0} (n : ℕ) (name : String) (v : ContextValue) (sources : Set) (m : Action A)
      → Safe given n m
      → (s : Evaluator) → Within given s
      → given.limits.max_steps < s.steps + n
      → Subset sources s.all_reads
      → Ends (After given s) (scoped name v sources m s)
  unfolding scoped Safe
  safe-scoped n name v sources m body s w fuel known =
      scoped_ends s name v sources (m (bind_item name v sources s)) w
        (body (bind_item name v sources s) (enter_bind s name v sources w known) fuel)
