-- ===== src/Context/Evaluate/Runs/Circles.antt =====
-- rust/crates/zf-context/src/context.rs: the turns of a `ForEach` block change its variable, and the
-- end of the loop restores it.
use zedflow.Base.{
  ℕ, zero, suc, ◌<◌, String, ◌<>◌, ◌≡◌, refl, ap, ◌∙◌, inl, inr, false, Option, none, some, List,
  [], ◌∷◌, ◌++◌, arith, str_eq, Bool-cases,
}
use zedflow.Base.Outcome.{Outcome, ok, err}
use zedflow.Base.Text.{decimal}
use zedflow.Base.Maps
use zedflow.Base.Maps.{Map, get-insert-other, get-erase, get-insert-cases}
use zedflow.Context.Evaluate.Values.{ContextValue, index}
use zedflow.Context.Evaluate.State.{
  AccessError, ContextIteration, Inputs, Outside, Evaluator, Answer, gave, panicked, exhausted,
  Action, and_then, handled,
}
use zedflow.Context.Evaluate.Blocks.{loop_turn, loop_turns, stops}
use zedflow.Context.Evaluate.Blocks.Identities.{ContextItem, popped}
use zedflow.Context.Evaluate.Runs.{Ends, Moves, Moves-trans, Runs, Runs-refl, Within, After, Safe}
use zedflow.Context.Evaluate.Runs.Steps.{keep_note, safe-tick}
use zedflow.Context.Evaluate.Runs.Delivers.{
  Makes, Makes-first, Makes-nil, Makes-append, Delivers, self,
}

popped-snoc : (xs : List ContextIteration) (x : ContextIteration) → popped (xs ++ x ∷ []) ≡ xs
popped-snoc [] x = refl
popped-snoc (y ∷ []) x = refl
popped-snoc (y ∷ z ∷ xs) x = ap (λ ws. y ∷ ws) (popped-snoc (z ∷ xs) x)

-- The effect of turns: the variables other than the loop's are what they were.
pub record Circles (name : String) (s t : Evaluator) : Type 0 where
  pub moves : Moves s t
  pub variables :
      (k : String) → str_eq name k ≡ false → Maps.get t.variables k ≡ Maps.get s.variables k
  pub sources : (k : String) → Maps.get t.variable_sources k ≡ Maps.get s.variable_sources k

of_Runs : (name : String) (s t : Evaluator) → Runs s t → Circles name s t
of_Runs name s t runs = record {
  moves = runs.moves;
  variables = λ k other. runs.variables k;
  sources = runs.sources;
}

Circles-trans :
    (name : String) (s t u : Evaluator) → Circles name s t → Circles name t u → Circles name s u
Circles-trans name s t u a b = record {
  moves = Moves-trans s t u a.moves b.moves;
  variables = λ k other. b.variables k other ∙ a.variables k other;
  sources = λ k. b.sources k ∙ a.sources k;
}

module _ (given : Inputs) (outside : Outside) (fuel : ℕ) (enough : given.limits.max_steps < fuel)
    (name : String) where
  unfoldable pub Turned : Evaluator → Outcome AccessError (List ContextItem) → Evaluator → Type 0
  Turned s (ok out) t = Circles name s t × Within given t × Makes given outside s out t
  Turned s (err e) t = ⊥

  Turned-first :
      (s t : Evaluator) (r : Answer (List ContextItem))
      → Circles name s t
      → Ends (Turned t) r
      → Ends (Turned s) r
  unfolding Turned
  Turned-first s t (gave (ok out) u) first (later, within, made) = (
    Circles-trans name s t u first later,
    within,
    Makes-first given outside s t u out first.moves made,
  )
  Turned-first s t (gave (err e) u) first ends = ends
  Turned-first s t panicked first ends = ends
  Turned-first s t exhausted first ends = ends

  Turned-handled :
      (s : Evaluator) (r : Answer (Unit {0}))
      (f : Outcome AccessError (Unit {0}) → Action (List ContextItem))
      → Ends (After given s) r
      → ((o : Outcome AccessError (Unit {0})) (t : Evaluator)
          → Within given t
          → Ends (Turned t) (f o t))
      → Ends (Turned s) (handled r f)
  unfolding handled
  Turned-handled s (gave o t) f (known, runs, within) next =
      Turned-first s t (f o t) (of_Runs name s t runs) (next o t within)
  Turned-handled s panicked f ends next = ends
  Turned-handled s exhausted f ends next = ends

  Turned-append :
      (s t : Evaluator) (here : List ContextItem) (r : Answer (List ContextItem))
      → Circles name s t
      → Makes given outside s here t
      → Ends (Turned t) r
      → Ends (Turned s) (and_then r (λ later u. gave (ok (here ++ later)) u))
  unfolding Turned and_then
  Turned-append s t here (gave (ok later) u) first made (circles, within, more) = (
    Circles-trans name s t u first circles,
    within,
    Makes-append given outside s t u here later made circles.moves more,
  )
  Turned-append s t here (gave (err e) u) first made ends = ends
  Turned-append s t here panicked first made ends = ends
  Turned-append s t here exhausted first made ends = ends

  Turned-then :
      (s : Evaluator) (r : Answer (List ContextItem))
      (f : List ContextItem → Action (List ContextItem))
      → Ends (Turned s) r
      → ((here : List ContextItem) (t : Evaluator)
          → Circles name s t
          → Within given t
          → Makes given outside s here t
          → Ends (Turned s) (f here t))
      → Ends (Turned s) (and_then r f)
  unfolding Turned and_then
  Turned-then s (gave (ok here) t) f (circles, within, made) next = next here t circles within made
  Turned-then s (gave (err e) t) f ends next = elim ends [ ]
  Turned-then s panicked f ends next = ends
  Turned-then s exhausted f ends next = ends

  Turned-nil : (s t : Evaluator) → Runs s t → Within given t → Ends (Turned s) (gave (ok []) t)
  unfolding Turned
  Turned-nil s t runs within =
      (of_Runs name s t runs, within, Makes-nil given outside s t runs.moves)

  -- The state in which the blocks of a loop's turn start, and the one in which the turn ends.
  abbrev entered : ContextValue → ContextIteration → Evaluator → Evaluator
  entered v entry s = record s {
    variables = Maps.insert s.variables name v;
    iterations = s.iterations ++ entry ∷ [];
  }

  loop_turn_left :
      (s : Evaluator) (v : ContextValue) (entry : ContextIteration) (r : Answer (List ContextItem))
      → Ends (Delivers given outside (self given outside) (entered v entry s)) r
      → Ends
          (Turned s)
          (and_then r (λ out t. gave (ok out) (record t { iterations = popped t.iterations })))
  unfolding Turned and_then Delivers
  loop_turn_left s v entry (gave (ok out) t) (runs, w, made) = (
    record {
      moves = record {
        steps = runs.moves.steps;
        all_reads = runs.moves.all_reads;
        output_ids = runs.moves.output_ids;
        iterations = ap popped runs.moves.iterations ∙ popped-snoc s.iterations entry;
        output_items = runs.moves.output_items;
        output_bytes = runs.moves.output_bytes;
      };
      variables = λ k other. runs.variables k ∙ get-insert-other s.variables name k v other;
      sources = runs.sources;
    },
    record {
      steps = w.steps;
      derived = w.derived;
      output = w.output;
      items = w.items;
      trace = w.trace;
      reads = w.reads;
      sources = w.sources;
    },
    record { read = made.read; items = made.items; bytes = made.bytes },
  )
  loop_turn_left s v entry (gave (err e) t) ends = ends
  loop_turn_left s v entry panicked ends = ends
  loop_turn_left s v entry exhausted ends = ends

  module _ (body : String → Action (List ContextItem))
      (body-ends : (path : String) (s : Evaluator)
        → Within given s
        → Ends (Delivers given outside (self given outside) s) (body path s)) where
    loop_turn-ends :
        (id path : String) (i : ℕ) (o : Option ContextValue) (s : Evaluator)
        → Within given s
        → Ends (Turned s) (loop_turn given outside fuel body id name path i o s)
    unfolding loop_turn and_then
    loop_turn-ends id path i none s w = Turned-nil s s (Runs-refl given s) w
    loop_turn-ends id path i (some v) s w =
        let entry : ContextIteration = record { block_id = id; index = i } in
        let start = entered v entry s in
        loop_turn_left s v entry _ (
          body-ends (path <> ".iterations[" <> decimal i <> "].items") start (record {
            steps = w.steps;
            derived = w.derived;
            output = w.output;
            items = w.items;
            trace = w.trace;
            reads = w.reads;
            sources = w.sources;
          }))

    pub loop_turns-ends :
        (id path : String) (source : ContextValue) (i n : ℕ) (s : Evaluator)
        → Within given s
        → Ends (Turned s) (loop_turns given outside fuel body id name path source i n s)
    unfolding loop_turns Safe and_then
    loop_turns-ends id path source i zero s w = Turned-nil s s (Runs-refl given s) w
    loop_turns-ends id path source i (suc n) s w =
        Turned-handled s _ _ (safe-tick given fuel path s w (omega (arith, enough)))
          λ ticked t within. elim (Bool-cases (stops given outside fuel ticked t)) [
            | inl e ↦
                rw e
                  (let (runs, kept) = keep_note given t path _ within in Turned-nil t _ runs kept)
            | inr e ↦ rw e (
                Turned-then t _ _ (loop_turn-ends id path i (index source i) t within)
                  λ here u circles inside made.
                    Turned-append t u here _ circles made
                      (loop_turns-ends id path source (suc i) n u inside))
          ]
