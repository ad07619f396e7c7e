-- ===== src/Context/Evaluate/Runs/Turns.antt =====
-- rust/crates/zf-context/src/context.rs: the operations of `Evaluator::blocks` on the window keep
-- the promise about its items.
use zedflow.Base.{
  ℕ, ◌+◌, ◌-◌, ◌≤◌, ◌<◌, String, ◌≡◌, refl, sym, ap, subst, inl, inr, true, Option, none, some,
  List, [], arith, leb, ltb, get_or, Bool-cases, is_some,
}
use zedflow.Base.Outcome.{Outcome, ok, err}
use zedflow.Base.Maps
use zedflow.Base.Maps.{Map}
use zedflow.Core.Types.{DataType}
use zedflow.Context.Window.Capture.{ResourceNeed}
use zedflow.Context.Fragment.{FragmentRole, FragmentFormat}
use zedflow.Context.Evaluate.Values.{ContextValue, measured_bytes}
use zedflow.Context.Evaluate.State.{
  AccessError, missing, invalid, Inputs, Outside, Evaluator, gave, and_then, handled, pure,
  count_output, bytes, or_error,
}
use zedflow.Context.Evaluate.Blocks.{demand_with, demand, place_fragment, emit_value}
use zedflow.Context.Evaluate.Blocks.Identities.{ContextItem, if_ok}
use zedflow.Context.Evaluate.Runs.{Ends, Runs, Runs-refl, Within, Known}
use zedflow.Context.Evaluate.Runs.Steps.{keep_rest}
use zedflow.Context.Evaluate.Runs.Delivers.{
  ItemsRead, items_count, items_size, weight, Makes, Delivers, Makes-nil, deliver_then, nothing,
  self, deliver_note,
}

module _ (given : Inputs) (outside : Outside) (fuel : ℕ) where
  -- A change of the state that makes no item.
  pub quiet :
      (s t : Evaluator)
      → Runs s t × Within given t
      → Ends (Delivers given outside (nothing given outside) s) (gave (ok tt) t)
  unfolding Delivers
  quiet s t (runs, within) = (runs, within, Makes-nil given outside s t runs.moves)

  demand_with-ends :
      (name path : String) (need : Option ResourceNeed) (o : Option DataType) (s : Evaluator)
      → is_some o ≡ true
      → Within given s
      → Ends
          (Delivers given outside (nothing given outside) s)
          (demand_with given outside fuel name path need o s)
  unfolding demand_with
  demand_with-ends name path (some need) o s h w =
      quiet s _ (keep_rest given s _ s.diagnostics s.validated s.output_ids (λ x h. h) w)
  demand_with-ends name path none (some t) s h w =
      quiet s _ (keep_rest given s _ s.diagnostics s.validated s.output_ids (λ x h. h) w)
  demand_with-ends name path none none s h w = cc

  -- A failed read is noted, since an unavailable resource is one that the strategy requires.
  demand-ends :
      (e : AccessError) (path : String) (s : Evaluator)
      → Known given {A = ContextValue} (err e)
      → Within given s
      → Ends (Delivers given outside (nothing given outside) s) (demand given outside fuel e path s)
  unfolding demand
  demand-ends (missing name) path s known w =
      demand_with-ends name path (Maps.get s.needs name) (Maps.get given.requirements name) s known
        w
  demand-ends invalid path s known w = quiet s s (Runs-refl given s, w)

  pub demanded-ends :
      {A : Type 0} (out : A → List ContextItem) (a : A) (e : AccessError) (path : String)
      (s : Evaluator)
      → Known given {A = ContextValue} (err e)
      → out a ≡ []
      → Within given s
      → Ends
          (Delivers given outside out s)
          (and_then (demand given outside fuel e path s) (λ _. pure a))
  unfolding Delivers
  demanded-ends out a e path s known empty w =
      deliver_then given outside out (nothing given outside) s _ _ (demand-ends e path s known w)
        λ _ t runs within made.
          (runs, within, subst (λ z. Makes given outside s z t) (sym empty) made)

  -- What `count_output` leaves.
  pub keep_items :
      (s : Evaluator) (total : ℕ)
      → Within given s
      → s.output_items < given.limits.max_items
      → s.output_bytes ≤ total
      → total ≤ given.limits.max_bytes
      → let t : Evaluator = record s { output_items = s.output_items + 1; output_bytes = total } in
        Runs s t × Within given t
  keep_items s total w room more fits = (
    record {
      moves = record {
        steps = omega arith;
        all_reads = λ x h. h;
        output_ids = λ x h. h;
        iterations = refl;
        output_items = omega arith;
        output_bytes = more;
      };
      variables = λ k. refl;
      sources = λ k. refl;
    },
    record {
      steps = w.steps;
      derived = w.derived;
      output = fits;
      items = omega (arith, room);
      trace = w.trace;
      reads = w.reads;
      sources = w.sources;
    },
  )

  place_fragment-ends :
      (id : String) (role : FragmentRole) (format : FragmentFormat) (v : ContextValue)
      (path : String) (size : ℕ) (s : Evaluator)
      → weight given outside v ≡ size
      → Within given s
      → Ends
          (Delivers given outside (self given outside) s)
          (place_fragment given outside fuel id role format v path size s)
  unfolding place_fragment count_output and_then Delivers ItemsRead items_count items_size
  place_fragment-ends id role format v path size s measured w =
      elim (Bool-cases (ltb (given.limits.max_bytes - s.output_bytes) size)) [
        | inl e ↦ rw e (deliver_note given outside s path _ w)
        | inr e ↦ elim (Bool-cases (leb given.limits.max_items s.output_items)) [
          | inl full ↦ rw (e, full) (deliver_note given outside s path _ w)
          | inr free ↦
              rw (e, free)
                (let (runs, within) =
                    keep_items s (s.output_bytes + size) w (ground (arith, free)) (omega arith)
                      (ground (arith, e, w.output)) in
                  (
                    runs,
                    within,
                    record {
                      read = (w.reads, tt);
                      items = omega arith;
                      bytes = omega (arith, measured);
                    },
                  ))
        ]
      ]

  emit_sized :
      (id : String) (role : FragmentRole) (format : FragmentFormat) (v : ContextValue)
      (path message : String) (o : Option ℕ) (s : Evaluator)
      → measured_bytes outside.chunks v given.limits.max_bytes ≡ o
      → Within given s
      → Ends (Delivers given outside (self given outside) s) (
          handled
            (or_error o path message s)
            (if_ok (λ size. place_fragment given outside fuel id role format v path size)))
  unfolding handled
  emit_sized id role format v path message (some k) s e w =
      place_fragment-ends id role format v path k s (ap (λ z. get_or z 0) e) w
  emit_sized id role format v path message none s e w = deliver_note given outside s path message w

  pub emit_value-ends :
      (id : String) (role : FragmentRole) (format : FragmentFormat) (path : String)
      (o : Outcome AccessError ContextValue) (s : Evaluator)
      → Known given o
      → Within given s
      → Ends
          (Delivers given outside (self given outside) s)
          (emit_value given outside fuel id role format path o s)
  unfolding emit_value bytes
  emit_value-ends id role format path (ok v) s known w =
      emit_sized id role format v path _ _ s refl w
  emit_value-ends id role format path (err (missing name)) s known w =
      demanded-ends (self given outside) [] (missing name) path s known refl w
  emit_value-ends id role format path (err invalid) s known w =
      demanded-ends (self given outside) [] invalid path s tt refl w
