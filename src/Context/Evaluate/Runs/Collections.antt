-- ===== src/Context/Evaluate/Runs/Collections.antt =====
-- rust/crates/zf-context/src/context.rs: the last parts of `Evaluator::keyed`, of a template, of a
-- measure, of a construction and of a call keep the relation of the `Evaluator`.
use zedflow.Base.{
  ℕ, ◌-◌, String, ◌<>◌, ◌≡◌, refl, inl, inr, true, Option, none, some, List, [], ◌∷◌, ltb,
  if◌then◌else◌, contains, Bool-cases, is_some, ◌+◌, ◌<◌,
}
use zedflow.Base.Outcome.{ok, err}
use zedflow.Base.Text.{utf8_len}
use zedflow.Base.Maps
use zedflow.Base.Maps.{Map}
use zedflow.Base.Sets
use zedflow.Base.Sets.{Set}
use zedflow.Json.{Value}
use zedflow.Core.Types.{DataType}
use zedflow.Core.Values.Totality.{validate_value_total}
use zedflow.Context.Language.{ContextExpr, MeasureUnit}
use zedflow.Context.Language.Template.{TemplatePart, Parts}
use zedflow.Context.Evaluate.Values.{ContextValue, array_len, as_json}
use zedflow.Context.Evaluate.State.{
  invalid, Inputs, Outside, Evaluator, Answer, gave, panicked, exhausted, Action, handled, bytes,
}
use zedflow.Context.Evaluate.Terms.{
  charge_key, dedup_from, group_from, keyed_values, part_text, render, or_stuck, media_count,
  measure_node, check_construct, called,
}
use zedflow.Context.Evaluate.Terms.Lists.{Keyed, Groups, enter_group}
use zedflow.Context.Evaluate.Runs.{
  Ends, Subset, Within, After, Safe, Runs-refl, safe-bind, safe-pure, safe-or_invalid,
}
use zedflow.Context.Evaluate.Runs.Steps.{safe-error, safe-items, safe-bytes, safe-charge}
use zedflow.Context.Evaluate.Runs.Scopes.{sound_sources}
use zedflow.Context.Evaluate.Runs.Terms.{safe-verdict}

module _ (given : Inputs) (outside : Outside) (n : ℕ) where
  measured : (v : ContextValue) (path : String) → Safe given n (bytes given outside.chunks v path)
  measured v path = safe-bytes given outside.chunks n v path

  safe-fail : (A : Type 0) → Safe given {A = A} n (λ s. gave (err invalid) s)
  unfolding Safe
  safe-fail A s w fuel = (tt, Runs-refl given s, w)

  charge_measured :
      (v : ContextValue) (path : String)
      → Safe given n (charge_key given outside (ContextExpr.variable "") v path)
  unfolding charge_key
  charge_measured v path =
      safe-bind given n _ _ (measured v path) λ size. safe-charge given n size path

  pub safe-charge_key :
      (e : ContextExpr) (v : ContextValue) (path : String)
      → Safe given n (charge_key given outside e v path)
  unfolding charge_key
  safe-charge_key (ContextExpr.map _ _ _) v path = safe-pure given n tt
  safe-charge_key (ContextExpr.sort _ _ _ _) v path = charge_measured v path
  safe-charge_key (ContextExpr.group_by _ _ _) v path = charge_measured v path
  safe-charge_key (ContextExpr.dedup _ _ _) v path = charge_measured v path
  safe-charge_key _ v path = charge_measured v path

  safe-dedup_from :
      (pairs : List Keyed) (seen : Set) (path : String)
      → Safe given n (dedup_from given outside pairs seen path)
  unfolding dedup_from
  safe-dedup_from [] seen path = safe-pure given n []
  safe-dedup_from ((key, v) ∷ rest) seen path =
      safe-bind given n _ _ (safe-or_invalid given n (outside.encode (as_json key))) λ encoded.
        safe-bind given n _ _ (safe-charge given n (utf8_len encoded) path) λ _.
          safe-bind given n _ _ (safe-dedup_from rest (Sets.insert seen encoded) path)
            λ later. safe-pure given n (if contains seen encoded then later else v ∷ later)

  safe-group_from :
      (pairs : List Keyed) (groups : Groups) (path : String)
      → Safe given n (group_from given outside pairs groups path)
  unfolding group_from
  safe-group_from [] groups path = safe-pure given n groups
  safe-group_from ((key, v) ∷ rest) groups path =
      safe-bind given n _ _ (safe-or_invalid given n (outside.encode (as_json key))) λ encoded.
        safe-bind given n _ _ (safe-charge given n (utf8_len encoded) path) λ _.
          safe-group_from rest (enter_group encoded key v (Maps.get groups.1 encoded) groups) path

  pub safe-keyed_values :
      (e : ContextExpr) (pairs : List Keyed) (path : String)
      → Safe given n (keyed_values given outside e pairs path)
  unfolding keyed_values
  safe-keyed_values (ContextExpr.map _ _ _) pairs path = safe-pure given n _
  safe-keyed_values (ContextExpr.sort _ _ _ _) pairs path = safe-pure given n _
  safe-keyed_values (ContextExpr.group_by _ _ _) pairs path =
      safe-bind given n _ _ (safe-group_from pairs ([], []) path) λ groups. safe-pure given n _
  safe-keyed_values (ContextExpr.dedup _ _ _) pairs path =
      safe-bind given n _ _ (safe-dedup_from pairs [] path) λ kept. safe-pure given n _
  safe-keyed_values _ pairs path = safe-fail _

  safe-part_text :
      (arguments : Map ContextValue) (p : TemplatePart)
      → Safe given n (part_text given outside arguments p)
  unfolding part_text
  safe-part_text arguments (TemplatePart.plain s) = safe-pure given n s
  safe-part_text arguments (TemplatePart.variable name) = safe-or_invalid given n _

  pub safe-render :
      (ps : List TemplatePart) (arguments : Map ContextValue) (written path : String)
      → Safe given n (render given outside ps arguments written path)
  unfolding render
  safe-render [] arguments written path = safe-pure given n written
  safe-render (p ∷ ps) arguments written path =
      safe-bind given n _ _ (safe-part_text arguments p) λ part.
        elim (Bool-cases (ltb (given.limits.max_bytes - utf8_len written) (utf8_len part))) [
          | inl e ↦ rw e (safe-error given String n path _)
          | inr e ↦ rw e (safe-render ps arguments (written <> part) path)
        ]

  pub safe-or_stuck : (r : Parts) → is_some r ≡ true → Safe given n (or_stuck given outside r)
  unfolding Safe
  safe-or_stuck none h s w fuel = cc
  safe-or_stuck (some (ok ps)) h s w fuel = (tt, Runs-refl given s, w)
  safe-or_stuck (some (err e)) h s w fuel = (tt, Runs-refl given s, w)

  safe-media_count :
      (v : ContextValue) (path : String) (o : Option ℕ)
      → Safe given n (media_count given outside v path o)
  unfolding media_count
  safe-media_count v path (some k) = safe-items given n v path
  safe-media_count v path none = safe-pure given n 1

  pub safe-measure_node :
      (unit : MeasureUnit) (v : ContextValue) (path : String)
      → Safe given n (measure_node given outside unit v path)
  unfolding measure_node
  safe-measure_node MeasureUnit.bytes v path = measured v path
  safe-measure_node MeasureUnit.entries v path = safe-items given n v path
  safe-measure_node MeasureUnit.media v path = safe-media_count v path (array_len v)

  pub safe-check_construct :
      (t : DataType) (v : ContextValue) (o : Option Value) (path : String)
      → Safe given n (check_construct given outside t v o path)
  unfolding check_construct
  safe-check_construct t v (some raw) path =
      safe-verdict given outside n _ _ (validate_value_total outside.debug t raw given.types)
  safe-check_construct t v none path = safe-bind given n _ _ (measured v path) λ size.
      safe-bind given n _ _ (safe-charge given n size path) λ _.
        safe-verdict given outside n _ _
          (validate_value_total outside.debug t (as_json v) given.types)

  called_ends :
      {A : Type 0} (s : Evaluator) (bindings : Map ContextValue) (sources : Map Set) (r : Answer A)
      → Within given s
      → Ends (After given (record s { variables = bindings; variable_sources = sources })) r
      → Ends (After given s) (
          handled r (λ o t.
            gave o (record t { variables = s.variables; variable_sources = s.variable_sources })))
  unfolding handled
  called_ends s bindings sources panicked w ends = ends
  called_ends s bindings sources exhausted w ends = ends
  called_ends s bindings sources (gave o t) w (known, runs, within) = (
    known,
    record {
      moves = record {
        steps = runs.moves.steps;
        all_reads = runs.moves.all_reads;
        output_ids = runs.moves.output_ids;
        iterations = runs.moves.iterations;
        output_items = runs.moves.output_items;
        output_bytes = runs.moves.output_bytes;
      };
      variables = λ k. refl;
      sources = λ k. refl;
    },
    record {
      steps = within.steps;
      derived = within.derived;
      output = within.output;
      items = within.items;
      trace = within.trace;
      reads = within.reads;
      sources =
          sound_sources given s.variable_sources s.variable_sources s.all_reads t.all_reads
            (λ k. refl) runs.moves.all_reads w.sources;
    },
  )

  -- The sources of the arguments of a call were read before it.
  abbrev pub Sound : Map Set → Evaluator → Type 0
  Sound sources s = (k : String) (xs : Set) → Maps.get sources k ≡ some xs → Subset xs s.all_reads

  pub called-ends :
      {A : Type 0} (bindings : Map ContextValue) (sources : Map Set) (m : Action A)
      → Safe given n m
      → (s : Evaluator) → Within given s
      → given.limits.max_steps < s.steps + n
      → Sound sources s
      → Ends (After given s) (called given outside bindings sources m s)
  unfolding called Safe
  called-ends bindings sources m safe s w fuel sound =
      let inside : Evaluator = record s { variables = bindings; variable_sources = sources } in
      let within : Within given inside = record {
        steps = w.steps;
        derived = w.derived;
        output = w.output;
        items = w.items;
        trace = w.trace;
        reads = w.reads;
        sources = sound;
      } in
      called_ends s bindings sources (m inside) w (safe inside within fuel)
