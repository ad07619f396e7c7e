-- ===== src/Context/Evaluate/Runs/Leaving.antt =====
-- rust/crates/zf-context/src/context.rs: how a turn of `blocks` begins and ends.
use zedflow.Base.{
  ℕ, ◌<◌, String, refl, sym, subst, inl, inr, List, [], ◌∷◌, ◌++◌, arith, ltb, contains, length,
  length-append, Bool-cases,
}
use zedflow.Base.Outcome.{ok, err}
use zedflow.Base.Sets
use zedflow.Base.Sets.{Set, contains-inserted}
use zedflow.Context.Window.Capture.{none_of}
use zedflow.Context.Evaluate.State.{
  ContextTrace, Inputs, Outside, Evaluator, Answer, gave, panicked, exhausted, Action, and_then,
  extend,
}
use zedflow.Context.Evaluate.Blocks.{leave_block, enter_block}
use zedflow.Context.Evaluate.Blocks.Identities.{ContextItem, Made, occurrence_id}
use zedflow.Context.Evaluate.Runs.{Ends, Subset, Runs, Runs-refl, Runs-trans, Within}
use zedflow.Context.Evaluate.Runs.Steps.{keep_note, keep_rest}
use zedflow.Context.Evaluate.Runs.Fresh.{Reserves, occurrence_id-Reserves}
use zedflow.Context.Evaluate.Runs.Terms.{contains-extend}
use zedflow.Context.Evaluate.Runs.Delivers.{
  Makes, Delivers, Makes-nil, Makes-last, second, deliver_first, deliver_then, nothing, self,
}
use zedflow.Context.Evaluate.Runs.Turns.{quiet}

module _ (given : Inputs) (outside : Outside) (fuel : ℕ) where
  keep_trace :
      (s : Evaluator) (entry : ContextTrace)
      → Within given s
      → length s.trace < given.limits.max_items
      → let t : Evaluator = record s { trace = s.trace ++ entry ∷ [] } in Runs s t × Within given t
  keep_trace s entry w room = (
    record {
      moves = record {
        steps = omega arith;
        all_reads = λ x h. h;
        output_ids = λ x h. h;
        iterations = refl;
        output_items = omega arith;
        output_bytes = omega arith;
      };
      variables = λ k. refl;
      sources = λ k. refl;
    },
    record {
      steps = w.steps;
      derived = w.derived;
      output = w.output;
      items = w.items;
      trace = omega (arith, room, length-append s.trace (entry ∷ []));
      reads = w.reads;
      sources = w.sources;
    },
  )

  keep_reads :
      (s : Evaluator) (reads : Set)
      → Within given s
      → Subset reads s.all_reads
      → let t : Evaluator = record s { reads = reads } in Runs s t × Within given t
  keep_reads s reads w known = (
    record {
      moves = record {
        steps = omega arith;
        all_reads = λ x h. h;
        output_ids = λ x h. h;
        iterations = refl;
        output_items = omega arith;
        output_bytes = omega arith;
      };
      variables = λ k. refl;
      sources = λ k. refl;
    },
    record {
      steps = w.steps;
      derived = w.derived;
      output = w.output;
      items = w.items;
      trace = w.trace;
      reads = known;
      sources = w.sources;
    },
  )

  leave_block-ends :
      (id authored path : String) (made : Made) (s : Evaluator)
      → Within given s
      → Ends
          (Delivers given outside (nothing given outside) s)
          (leave_block given outside fuel id authored path made s)
  unfolding leave_block
  leave_block-ends id authored path (outcome, out) s w =
      elim (Bool-cases (ltb (length s.trace) given.limits.max_items)) [
        | inl e ↦ rw e (quiet given outside fuel s _ (keep_trace s _ w (ground (arith, e))))
        | inr e ↦ rw e (quiet given outside fuel s _ (keep_note given s path _ w))
      ]

  reserved_quiet :
      (s : Evaluator) (r : Answer String)
      → Within given s
      → Ends (Reserves s) r
      → Ends (Delivers given outside (nothing given outside) s) r
  unfolding Delivers
  reserved_quiet s (gave (ok id) t) w (fresh, same) =
      subst (λ z. Runs s z × Within given z × Makes given outside s [] z) (sym same)
        (quiet given outside fuel s _ (
          keep_rest given s s.needs s.diagnostics s.validated (Sets.insert s.output_ids id)
            (contains-inserted s.output_ids id) w))
  reserved_quiet s (gave (err e) t) w ends = elim ends [ ]
  reserved_quiet s panicked w ends = ends
  reserved_quiet s exhausted w ends = ends

  occurrence_id-ends :
      (id path : String) (s : Evaluator)
      → Within given s
      → Ends (Delivers given outside (nothing given outside) s) (occurrence_id id path s)
  unfolding occurrence_id Delivers
  occurrence_id-ends id path s w = elim (Bool-cases (none_of s.iterations)) [
    | inl e ↦ rw e (Runs-refl given s, w, Makes-nil given outside s s (Runs-refl given s).moves)
    | inr e ↦ reserved_quiet s (occurrence_id id path s) w (occurrence_id-Reserves id path s e)
  ]

  left_behind :
      (s u : Evaluator) (out : List ContextItem) (previous : Set) (r : Answer (Unit {0}))
      → Runs s u
      → Makes given outside s out u
      → Subset previous u.all_reads
      → Ends (Delivers given outside (nothing given outside) u) r
      → Ends
          (Delivers given outside (self given outside) s)
          (and_then r (λ _ v. gave (ok out) (record v { reads = extend v.reads previous })))
  unfolding and_then Delivers
  left_behind s u out previous (gave (ok _) v) runs made known (later, w, _) =
      let back : Subset (extend v.reads previous) v.all_reads = λ x h.
        elim (Bool-cases (contains v.reads x)) [
          | inl e ↦ w.reads x e
          | inr e ↦
              later.moves.all_reads x
                (known x (ground (arith, e, contains-extend v.reads previous x h)))
        ] in
      let (last, within) = keep_reads v (extend v.reads previous) w back in
      let end : Evaluator = record v { reads = extend v.reads previous } in
      let rest = Runs-trans u v end later last in
      (Runs-trans s u end runs rest, within, Makes-last given outside s u end out made rest.moves)
  left_behind s u out previous (gave (err e) v) runs made known ends = elim ends [ ]
  left_behind s u out previous panicked runs made known ends = ends
  left_behind s u out previous exhausted runs made known ends = ends

  -- A turn of `blocks` delivers what its block makes.
  pub enter_block-ends :
      (authored path : String) (body : String → Action Made) (s : Evaluator)
      → Within given s
      → ((id : String) (t : Evaluator)
          → Within given t
          → Ends (Delivers given outside (second given outside) t) (body id t))
      → Ends
          (Delivers given outside (self given outside) s)
          (enter_block given outside fuel authored path body s)
  unfolding enter_block and_then
  enter_block-ends authored path body s w each =
      deliver_then given outside (self given outside) (nothing given outside) s _ _
        (occurrence_id-ends authored path s w)
        λ id t runs within _.
          let (reset, clear) = keep_reads t [] within (λ x h. cc) in
          let start : Evaluator = record t { reads = [] } in
          deliver_first given outside (self given outside) s start _
            (Runs-trans s t start runs reset)
            (deliver_then given outside (self given outside) (second given outside) start _ _
              (each id start clear)
              λ made u onward inside done.
                left_behind start u made.1 t.reads _ onward done
                  (λ x h. onward.moves.all_reads x (within.reads x h))
                  (leave_block-ends id authored path made u inside))
