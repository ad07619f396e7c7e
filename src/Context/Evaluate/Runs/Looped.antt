-- ===== src/Context/Evaluate/Runs/Looped.antt =====
-- rust/crates/zf-context/src/context.rs: a loop of `blocks` and what it leaves behind.
use zedflow.Base.{
  ℕ, ◌<◌, String, refl, ap, subst, ◌∙◌, inl, inr, none, List, [], arith, if◌then◌else◌,
}
use zedflow.Base.Outcome.{Outcome, ok, err}
use zedflow.Base.Maps
use zedflow.Base.Maps.{Map, get-insert-other, get-erase, get-insert-cases}
use zedflow.Context.Evaluate.Values.{ContextValue}
use zedflow.Context.Evaluate.State.{
  AccessError, missing, invalid, Inputs, Outside, Evaluator, Answer, gave, panicked, exhausted,
  Action, handled, restore,
}
use zedflow.Context.Evaluate.Blocks.{loop_turns, looped, for_each_value}
use zedflow.Context.Evaluate.Blocks.Identities.{ContextItem, if_ok}
use zedflow.Context.Evaluate.Runs.{Ends, Subset, Runs-refl, restore-Agree, Within, Known, Safe}
use zedflow.Context.Evaluate.Runs.Steps.{safe-items}
use zedflow.Context.Evaluate.Runs.Scopes.{sound_sources}
use zedflow.Context.Evaluate.Runs.Delivers.{Delivers, self, deliver_handled, deliver_nil}
use zedflow.Context.Evaluate.Runs.Turns.{demanded-ends}
use zedflow.Context.Evaluate.Runs.Circles.{Turned, loop_turns-ends}

module _ (given : Inputs) (outside : Outside) (fuel : ℕ) (enough : given.limits.max_steps < fuel)
    (name : String) where
  around : Evaluator → Evaluator
  around s = record s {
    variables = Maps.erase s.variables name;
    variable_sources = Maps.insert s.variable_sources name s.reads;
  }

  looped_left :
      (s : Evaluator) (r : Answer (List ContextItem))
      → Within given s
      → Ends (Turned given outside fuel enough name (around s)) r
      → Ends (Delivers given outside (self given outside) s) (
          handled r (λ o t. gave o (record t {
            variables = restore name (Maps.get s.variables name) t.variables;
            variable_sources = restore name (Maps.get s.variable_sources name) t.variable_sources;
          })))
  unfolding Turned around handled Delivers
  looped_left s panicked w ends = ends
  looped_left s exhausted w ends = ends
  looped_left s (gave (err e) t) w ends = ends
  looped_left s (gave (ok out) t) w (circles, within, made) =
      let variables = restore-Agree s.variables t.variables name (λ k other.
        circles.variables k other
        ∙ get-erase s.variables name k
        ∙ ap (λ b. if b then none else Maps.get s.variables k) other) in
      let origins =
        restore-Agree s.variable_sources t.variable_sources name (λ k other.
          circles.sources k ∙ get-insert-other s.variable_sources name k s.reads other) in
      (
        record {
          moves = record {
            steps = circles.moves.steps;
            all_reads = circles.moves.all_reads;
            output_ids = circles.moves.output_ids;
            iterations = circles.moves.iterations;
            output_items = circles.moves.output_items;
            output_bytes = circles.moves.output_bytes;
          };
          variables = variables;
          sources = origins;
        },
        record {
          steps = within.steps;
          derived = within.derived;
          output = within.output;
          items = within.items;
          trace = within.trace;
          reads = within.reads;
          sources =
              sound_sources given s.variable_sources _ s.all_reads t.all_reads origins
                circles.moves.all_reads w.sources;
        },
        record { read = made.read; items = made.items; bytes = made.bytes },
      )

  around-Within : (s : Evaluator) → Within given s → Within given (around s)
  unfolding around
  around-Within s w = record {
    steps = w.steps;
    derived = w.derived;
    output = w.output;
    items = w.items;
    trace = w.trace;
    reads = w.reads;
    sources = λ k xs found. elim (get-insert-cases s.variable_sources name k s.reads xs found) [
      | inl (_, same) ↦ subst (λ z. Subset z s.all_reads) same w.reads
      | inr (_, older) ↦ w.sources k xs older
    ];
  }

  module _ (body : String → Action (List ContextItem))
      (body-ends : (path : String) (s : Evaluator)
        → Within given s
        → Ends (Delivers given outside (self given outside) s) (body path s)) where
    looped-ends :
        (id path : String) (source : ContextValue) (n : ℕ) (s : Evaluator)
        → Within given s
        → Ends (Delivers given outside (self given outside) s) (
            looped given outside fuel name
              (loop_turns given outside fuel body id name path source 0 n)
              s)
    unfolding looped around
    looped-ends id path source n s w = looped_left s _ w (
        loop_turns-ends given outside fuel enough name body body-ends id path source 0 n (around s)
          (around-Within s w))

    counted-ends :
        (id path : String) (source : ContextValue) (counted : Outcome AccessError ℕ) (s : Evaluator)
        → Within given s
        → Ends (Delivers given outside (self given outside) s) (
            if_ok
              (λ n.
                looped given outside fuel name
                  (loop_turns given outside fuel body id name path source 0 n))
              counted
              s)
    counted-ends id path source (ok n) s w = looped-ends id path source n s w
    counted-ends id path source (err e) s w = deliver_nil given outside s s (Runs-refl given s) w

    pub for_each_value-ends :
        (id path : String) (o : Outcome AccessError ContextValue) (s : Evaluator)
        → Known given o
        → Within given s
        → Ends
            (Delivers given outside (self given outside) s)
            (for_each_value given outside fuel body id name path o s)
    unfolding for_each_value Safe
    for_each_value-ends id path (err (missing resource)) s known w =
        demanded-ends given outside fuel (self given outside) [] (missing resource) path s known
          refl w
    for_each_value-ends id path (err invalid) s known w =
        demanded-ends given outside fuel (self given outside) [] invalid path s tt refl w
    for_each_value-ends id path (ok source) s known w =
        deliver_handled given outside (self given outside) s _ _
          (safe-items given fuel source path s w (omega (arith, enough)))
          λ counted t _ runs within. counted-ends id path source counted t within
