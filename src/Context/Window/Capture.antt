-- ===== src/Context/Window/Capture.antt =====
-- rust/crates/zf-context/src/window.rs: `capture` and `decode`.
-- The codecs of `serde_json` are parameters: `to_value` and `from_value` for the items of an
-- evaluation, whose type is a parameter too, and `deserialize` for a whole window.
use zedflow.Base.{
  ℕ, String, ◌≡◌, refl, subst, Bool, true, false, ◌&&◌, Option, none, List, [], ◌∷◌, arith, All,
}
use zedflow.Base.Outcome.{
  ok, ◌>>=◌, ◌>>◌, >>=-eq-ok, >>-eq-ok, ok-injective, ensure, ensure-eq-ok, or_fail, for_each,
}
use zedflow.Base.Maps.{Map, contains_key}
use zedflow.Json.{Value}
use zedflow.Core.Diagnostic.{Diagnostic}
use zedflow.Core.Types.{DataType}
use zedflow.Context.Fragment.{ContextCapability}
use zedflow.Context.Window.{WindowItems, PreparedWindow, Checked, invalid, validate}
use zedflow.Context.Window.Forms.{IsWellFormed, validate-IsWellFormed}

pub record ResourceNeed : Type 0 where
  pub resource : String
  pub data_type : DataType
  pub required_by : List String

-- `ContextEvaluation`, less its trace, which `capture` does not read.
pub record ContextEvaluation (I : Type 0) : Type 0 where
  pub complete : Bool
  pub items : I
  pub capabilities : List ContextCapability
  pub needs : List ResourceNeed
  pub diagnostics : List Diagnostic
  pub reads : List String

abbrev pub none_of {ℓ} : {A : Type ℓ} → List A → Bool
none_of [] = true
none_of (x ∷ xs) = false

module _ (chunks : PreparedWindow → List ℕ) {I : Type 0} (to_value : I → Option Value)
    (from_value : Value → Option WindowItems) where
  unfoldable pub capture :
      String → String → ContextEvaluation I → Map String → Checked PreparedWindow
  capture strategy revision evaluation sources = do
    ensure (evaluation.complete && none_of evaluation.diagnostics && none_of evaluation.needs) (
        invalid "window_incomplete" "window"
          "Only a complete evaluation can become a prepared window")
    for_each
        (λ read. ensure (contains_key sources read) (
          invalid "window_source_revision" read
            "Every consulted source, including an absent source, needs a captured revision or explicit absence marker"))
        evaluation.reads
    value ←
        or_fail (to_value evaluation.items)
          (invalid "window_value" "items" "Window values cannot be serialized")
    items ←
        or_fail (from_value value) (invalid "window_value" "items" "Prepared items are malformed")
    let window : PreparedWindow = record {
      strategy_id = strategy;
      strategy_revision = revision;
      program_revision = none;
      items = items;
      source_revisions = sources;
      capabilities = evaluation.capabilities;
    }
    validate chunks window
    ok window

module _ (chunks : PreparedWindow → List ℕ) (deserialize : Value → Option PreparedWindow) where
  unfoldable pub decode : Value → Checked PreparedWindow
  decode value = do
    window ←
        or_fail (deserialize value)
          (invalid "window_value" "window" "Entity does not contain a prepared window")
    validate chunks window
    ok window

for_each_fact :
    {E A : Type 0} (test : A → Bool) (e : A → E) (xs : List A)
    → for_each (λ x. ensure (test x) (e x)) xs ≡ ok tt
    → All (λ x. test x ≡ true) xs
for_each_fact test e [] h = tt
for_each_fact test e (x ∷ xs) h =
    let (here, later) = >>-eq-ok (ensure (test x) (e x)) _ h in
    (ensure-eq-ok (test x) (e x) here, for_each_fact test e xs later)

none_of-eq-nil {ℓ} : {A : Type ℓ} (xs : List A) → none_of xs ≡ true → xs ≡ []
none_of-eq-nil [] h = refl
none_of-eq-nil (x ∷ xs) h = cc

-- What the evaluation of a strategy must be to become a window with the given revisions.
pub record IsCapturable {I : Type 0} (evaluation : ContextEvaluation I) (sources : Map String)
    : Type 0 where
  pub complete : evaluation.complete ≡ true
  pub diagnostics : evaluation.diagnostics ≡ []
  pub needs : evaluation.needs ≡ []
  pub reads : All (λ read. contains_key sources read ≡ true) evaluation.reads

module _ (chunks : PreparedWindow → List ℕ) {I : Type 0} (to_value : I → Option Value)
    (from_value : Value → Option WindowItems) where
  -- A captured window is well formed and keeps the given strategy, its revision and those of the
  -- sources; it comes only from a complete evaluation with no diagnostic and no open need, each of
  -- whose reads has a revision.
  pub capture-IsWellFormed :
      (strategy revision : String) (evaluation : ContextEvaluation I) (sources : Map String)
      (w : PreparedWindow)
      → capture chunks to_value from_value strategy revision evaluation sources ≡ ok w
      → IsWellFormed chunks w
        × IsCapturable evaluation sources
        × (w.strategy_id ≡ strategy)
        × (w.strategy_revision ≡ revision)
        × (w.source_revisions ≡ sources)
  unfolding capture
  capture-IsWellFormed strategy revision evaluation sources w e =
      let (finished, h₁) =
        >>-eq-ok
          (ensure
            (evaluation.complete && none_of evaluation.diagnostics && none_of evaluation.needs) _)
          _ e in
      let (known, h₂) = >>-eq-ok (for_each _ evaluation.reads) _ h₁ in
      let (value, _, h₃) = >>=-eq-ok (or_fail (to_value evaluation.items) _) _ h₂ in
      let (items, _, h₄) = >>=-eq-ok (or_fail (from_value value) _) _ h₃ in
      let window : PreparedWindow = record {
        strategy_id = strategy;
        strategy_revision = revision;
        program_revision = none;
        items = items;
        source_revisions = sources;
        capabilities = evaluation.capabilities;
      } in
      let (valid, h₅) = >>-eq-ok (validate chunks window) _ h₄ in
      let tests : (evaluation.complete
            && none_of evaluation.diagnostics
            && none_of evaluation.needs)
          ≡ true =
        ensure-eq-ok _ _ finished in
      let capturable : IsCapturable evaluation sources = record {
        complete = ground (arith, tests);
        diagnostics = none_of-eq-nil _ (ground (arith, tests));
        needs = none_of-eq-nil _ (ground (arith, tests));
        reads = for_each_fact (contains_key sources) _ evaluation.reads known;
      } in
      subst
        (λ (t : PreparedWindow).
          IsWellFormed chunks t
          × IsCapturable evaluation sources
          × (t.strategy_id ≡ strategy)
          × (t.strategy_revision ≡ revision)
          × (t.source_revisions ≡ sources))
        (ok-injective window w h₅)
        (validate-IsWellFormed chunks window valid, capturable, refl, refl, refl)
