-- ===== src/Context/Evaluate/Runs/Terms.antt =====
-- rust/crates/zf-context/src/context.rs: what the arms of `Evaluator::expression` do with values
-- keeps the relation of the `Evaluator`.
use zedflow.Base.{
  ℕ, String, ◌≡◌, refl, inl, inr, Bool, true, false, ◌||◌, Option, none, some, List, [], ◌∷◌, arith,
  if◌then◌else◌, contains, Bool-cases, is_some, get_or,
}
use zedflow.Base.Outcome.{Outcome, ok, err}
use zedflow.Base.Maps
use zedflow.Base.Maps.{Map, contains_key}
use zedflow.Base.Sets
use zedflow.Base.Sets.{Set, contains-insert}
use zedflow.Json.{Value}
use zedflow.Core.Diagnostic.{Diagnostic}
use zedflow.Core.Types.{DataType}
use zedflow.Core.Values.Totality.{validate_value_total}
use zedflow.Context.Evaluate.Values.{ContextValue, field_of}
use zedflow.Context.Evaluate.State.{Inputs, Outside, Evaluator, pure, extend}
use zedflow.Context.Evaluate.Terms.{
  check_resource, first_read, found_resource, resource_node, variable_node, found_field,
  project_from,
}
use zedflow.Context.Evaluate.Terms.Lists.{verdict, extended}
use zedflow.Context.Evaluate.Runs.{
  Subset, Runs, IsRequired, Within, Safe, Runs-refl, safe-bind, safe-observe, safe-pure,
  safe-or_invalid,
}
use zedflow.Context.Evaluate.Runs.Steps.{keep_rest, keep_diagnostics, settled, safe-bytes}

pub contains-extend :
    (a b : Set) (x : String)
    → contains (extend a b) x ≡ true
    → ◌≡◌ {A = Bool} (contains a x || contains b x) true
unfolding extend
contains-extend a [] x h = ground (arith, h)
contains-extend a (y ∷ ys) x h =
    let later = contains-extend (Sets.insert a y) ys x h in
    ground (arith, later, contains-insert a y x)

module _ (given : Inputs) (outside : Outside) (n : ℕ) where
  -- What is read is put into both sets; what a variable was read from had been read before.
  keep_reads :
      (s : Evaluator) (reads all : Set)
      → Within given s
      → Subset s.all_reads all
      → Subset reads all
      → Unit {0}
        × Runs s (record s { reads = reads; all_reads = all })
        × Within given (record s { reads = reads; all_reads = all })
  keep_reads s reads all w grows known = (
    tt,
    record {
      moves = record {
        steps = omega arith;
        all_reads = grows;
        output_ids = λ x h. h;
        iterations = refl;
        output_items = omega arith;
        output_bytes = omega arith;
      };
      variables = λ k. refl;
      sources = λ k. refl;
    },
    record {
      steps = w.steps;
      derived = w.derived;
      output = w.output;
      items = w.items;
      trace = w.trace;
      reads = known;
      sources = λ k xs found x h. grows x (w.sources k xs found x h);
    },
  )

  sources_read :
      (s : Evaluator) (o : Option Set)
      → Within given s
      → ((xs : Set) → o ≡ some xs → Subset xs s.all_reads)
      → Subset (extend s.reads (get_or o [])) s.all_reads
  sources_read s none w sound x h = w.reads x (ground (arith, contains-extend s.reads [] x h))
  sources_read s (some xs) w sound x h = elim (Bool-cases (contains s.reads x)) [
    | inl e ↦ w.reads x e
    | inr e ↦ sound xs refl x (ground (arith, e, contains-extend s.reads xs x h))
  ]

  pub safe-variable_node : (name : String) → Safe given n (variable_node given outside name)
  unfolding variable_node Safe
  safe-variable_node name =
      safe-bind given n _ _
        (λ s w fuel.
          keep_reads s _ s.all_reads w (λ x h. h)
            (sources_read s (Maps.get s.variable_sources name) w
              (λ xs found. w.sources name xs found)))
        (λ _ s w fuel. safe-or_invalid given n (Maps.get s.variables name) s w fuel)

  pub safe-found_field :
      (name path : String) (o : Option ContextValue)
      → Safe given n (found_field given outside name path o)
  unfolding found_field Safe
  safe-found_field name path (some v) s w fuel = safe-pure given n v s w fuel
  safe-found_field name path none s w fuel = settled given s _ (keep_diagnostics given s _ w)

  pub safe-project_from :
      (v : ContextValue) (names : List String) (selected : Map ContextValue) (path : String)
      → Safe given n (project_from given outside v names selected path)
  unfolding project_from
  safe-project_from v [] selected path = safe-pure given n selected
  safe-project_from v (name ∷ names) selected path =
      safe-bind given n _ _ (safe-found_field name path (field_of v name))
        λ part. safe-project_from v names (Maps.insert selected name part) path

  pub safe-verdict :
      (report : List Diagnostic → List Diagnostic)
      (r : Option (Outcome (List Diagnostic) (Unit {0})))
      → is_some r ≡ true
      → Safe given n (verdict (λ ds. extended (report ds)) r)
  unfolding verdict Safe
  safe-verdict report none h s w fuel = cc
  safe-verdict report (some (ok _)) h s w fuel = safe-pure given n tt s w fuel
  safe-verdict report (some (err ds)) h s w fuel = settled given s _ (keep_diagnostics given s _ w)

  safe-check_resource :
      (name path : String) (v : Value) (o : Option DataType)
      → is_some o ≡ true
      → Safe given n (check_resource given outside name v o path)
  unfolding check_resource Safe
  safe-check_resource name path v none h = cc
  safe-check_resource name path v (some t) h =
      safe-verdict _ _ (validate_value_total outside.debug t v given.types)

  safe-first_read :
      (name path : String) (v : Value)
      → IsRequired given name
      → Safe given n (first_read given outside name v path)
  unfolding first_read Safe
  safe-first_read name path v required =
      safe-bind given n _ _ (safe-bytes given outside.chunks n (ContextValue.shared v) path) λ _.
        safe-bind given n _ _
          (safe-check_resource name path v (Maps.get given.requirements name) required)
          (λ _ s w fuel.
            settled given s _ (keep_rest given s s.needs s.diagnostics _ s.output_ids (λ x h. h) w))

  safe-known_or_read :
      (name path : String) (v : Value) (known : Bool)
      → IsRequired given name
      → Safe given n (if known then pure tt else first_read given outside name v path)
  safe-known_or_read name path v true required = safe-pure given n tt
  safe-known_or_read name path v false required = safe-first_read name path v required

  safe-found_resource :
      (name path : String) (o : Option Value)
      → IsRequired given name
      → Safe given n (found_resource given outside name path o)
  unfolding found_resource Safe
  safe-found_resource name path none required s w fuel = (required, Runs-refl given s, w)
  safe-found_resource name path (some v) required s w fuel =
      safe-bind given n _ _
        (safe-observe given n (λ s. contains s.validated name) _
          (λ known. safe-known_or_read name path v known required))
        (λ _. safe-pure given n (ContextValue.shared v)) s w fuel

  grown : (a : Set) (name x : String) → contains a x ≡ true → contains (Sets.insert a name) x ≡ true
  grown a name x h = ground (arith, h, contains-insert a name x)

  pub safe-resource_node :
      (name path : String)
      → IsRequired given name
      → Safe given n (resource_node given outside name path)
  unfolding resource_node Safe
  safe-resource_node name path required =
      safe-bind given n _ _
        (λ s w fuel. keep_reads s _ _ w (grown s.all_reads name) (λ x h.
          let before = contains-insert s.reads name x in
          let after = contains-insert s.all_reads name x in
          elim (Bool-cases (contains s.reads x)) [
            | inl e ↦ grown s.all_reads name x (w.reads x e)
            | inr e ↦ ground (arith, h, e, before, after)
          ]))
        (λ _. safe-found_resource name path (Maps.get given.resources name) required)
