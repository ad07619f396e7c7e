-- ===== src/Context/Check/Accepted.antt =====
-- rust/crates/zf-context/src/context.rs: what `check` gives.
use zedflow.Base.{
  false, String, ◌≡◌, ◌≢◌, refl, sym, ◌∙◌, ◌≤◌, subst, inl, inr, Option, some, List, [], ◌∷◌,
  length, All, str_eq, eq_iff, Bool-cases, arith,
}
use zedflow.Base.Outcome.{ok, err}
use zedflow.Base.Maps
use zedflow.Base.Maps.{Map, keys}
use zedflow.Json.{Value}
use zedflow.Core.Diagnostic.{Diagnostic}
use zedflow.Core.Types.{DataType, TypeRegistry, or_errors}
use zedflow.Context.Language.{
  ContextStrategy, ContextLibrary, ContextFunction, LibraryKind, projection, subprogram,
  function_of, resolved_types,
}
use zedflow.Context.Evaluate.State.{EvaluationLimits, Inputs, default_limits}
use zedflow.Context.Evaluate.Program.{inputs_of}
use zedflow.Context.Evaluate.Runs.Required.{RequiresLibrary, RequiresBlocks}
use zedflow.Context.Check.{Subject}
use zedflow.Context.Check.Blocks.{check, check_strategy, subject_of, new_checker, registry}
use zedflow.Context.Check.Sound.Marked.{program_ids, Distinct}
use zedflow.Context.Check.Sound.Identifiers.{check_strategy-Marked}
use zedflow.Base.Text.{is_blank}
use zedflow.Context.Check.Sound.{Knows}
use zedflow.Context.Check.Sound.Blocks.{Checked, sound-check_strategy}

All-key :
    {V : Type 0} (P : String → Type 0) (m : Map V) (k : String) (v : V)
    → All P (keys m)
    → Maps.get m k ≡ some v
    → P k
unfolding Maps.get
All-key P [] k v ps = λ h. cc
All-key P ((j, w) ∷ m) k v (p, ps) = elim (Bool-cases (str_eq j k)) [
  | inl e ↦ λ _. subst P ((eq_iff j k).0 e) p
  | inr e ↦ rw e (All-key P m k v ps)
]

reported_ok : (ds : List Diagnostic) → or_errors ds ≡ ok tt → ds ≡ []
reported_ok [] h = refl
reported_ok (d ∷ ds) h = cc

reported_err : (ds es : List Diagnostic) → or_errors ds ≡ err es → (ds ≡ es) × (es ≢ [])
reported_err [] es h = cc
reported_err (d ∷ ds) es h = let same : d ∷ ds ≡ es = cc in (same, λ e. cc)

module _ (inputs : Inputs) (given : Subject) (same : given.requirements ≡ inputs.requirements) where
  library_checked :
      (kind : LibraryKind) (name : String) (f : ContextFunction)
      → All (Checked inputs given same projection) (keys given.library.projections)
      → All (Checked inputs given same subprogram) (keys given.library.subprograms)
      → function_of given.library kind name ≡ some f
      → Checked inputs given same kind name
  unfolding function_of
  library_checked projection name f ps qs found =
      All-key (Checked inputs given same projection) given.library.projections name f ps found
  library_checked subprogram name f ps qs found =
      All-key (Checked inputs given same subprogram) given.library.subprograms name f qs found

abbrev diagnosed :
    (DataType → String)
    → ContextStrategy
    → Option TypeRegistry
    → TypeRegistry
    → ContextLibrary
    → List Diagnostic
diagnosed debug strategy types merged library =
    (check_strategy (subject_of debug strategy types merged library) strategy
      new_checker).1.diagnostics

check-merged :
    (debug : DataType → String) (strategy : ContextStrategy) (types : Option TypeRegistry)
    (merged : TypeRegistry) (library : ContextLibrary)
    → resolved_types strategy (registry types) ≡ ok merged
    → check debug strategy types library ≡ or_errors (diagnosed debug strategy types merged library)
unfolding check
check-merged debug strategy types merged library resolves = rw (resolves, check) refl

-- The check begins with the types, so it refuses what `resolved_types` refuses.
pub check-unmerged :
    (debug : DataType → String) (strategy : ContextStrategy) (types : Option TypeRegistry)
    (library : ContextLibrary) (errors : List Diagnostic)
    → resolved_types strategy (registry types) ≡ err errors
    → check debug strategy types library ≡ err errors
unfolding check
check-unmerged debug strategy types library errors refused = rw (refused, check) refl

-- Where the types of a strategy are resolved, its check against a scope of types accepts it only if
-- its program, and the body of every function of the library, name no resource but those that the
-- strategy requires.
pub check-Requires :
    (debug : DataType → String) (strategy : ContextStrategy) (types merged : TypeRegistry)
    (library : ContextLibrary) (resources : Map Value) (limits : EvaluationLimits)
    → resolved_types strategy types ≡ ok merged
    → check debug strategy (some types) library ≡ ok tt
    → RequiresLibrary (inputs_of strategy resources merged library limits)
      × RequiresBlocks (inputs_of strategy resources merged library limits) strategy.program
check-Requires debug strategy types merged library resources limits resolves accepted =
    let inputs = inputs_of strategy resources merged library limits in
    let given = subject_of debug strategy (some types) merged library in
    let s = sound-check_strategy inputs given refl {H = Unit {0}} strategy refl in
    let start : Knows Unit inputs given new_checker = record {
      ready = tt;
      linked = refl;
      variables = tt;
      done = λ kind name f h. cc;
    } in
    let clean =
      reported_ok _
        (sym (check-merged debug strategy (some types) merged library resolves) ∙ accepted) in
    let ((projections, subprograms, program), _) = s.sound new_checker clean start tt in
    (
      (λ catalog name function found.
          (library_checked inputs given refl catalog name function projections subprograms found
            function found).1),
      program,
    )

-- Where the types of a strategy are resolved, with or without a scope of types, a check that refuses
-- the strategy gives at least one diagnostic and at most 64.
pub check-limited :
    (debug : DataType → String) (strategy : ContextStrategy) (types : Option TypeRegistry)
    (merged : TypeRegistry) (library : ContextLibrary) (ds : List Diagnostic)
    → resolved_types strategy (registry types) ≡ ok merged
    → check debug strategy types library ≡ err ds
    → (ds ≢ []) × (length ds ≤ 64)
check-limited debug strategy types merged library ds resolves refused =
    let inputs = inputs_of strategy [] merged library default_limits in
    let given = subject_of debug strategy types merged library in
    let s = sound-check_strategy inputs given refl {H = Unit {0}} strategy refl in
    let (same, some_reported) =
      reported_err _ ds
        (sym (check-merged debug strategy types merged library resolves) ∙ refused) in
    (some_reported, subst (λ es. length es ≤ 64) same (s.bound new_checker (omega arith)))

-- Where the types of a strategy are resolved and its check against a scope of types accepts it, the
-- identifiers of all its blocks, those inside of other blocks included, are not blank and all differ.
pub check-Distinct :
    (debug : DataType → String) (strategy : ContextStrategy) (types merged : TypeRegistry)
    (library : ContextLibrary)
    → resolved_types strategy types ≡ ok merged
    → check debug strategy (some types) library ≡ ok tt
    → All (λ id. is_blank id ≡ false) (program_ids strategy.program)
      × Distinct (program_ids strategy.program)
check-Distinct debug strategy types merged library resolves accepted =
    let inputs = inputs_of strategy [] merged library default_limits in
    let given = subject_of debug strategy (some types) merged library in
    let clean =
      reported_ok _
        (sym (check-merged debug strategy (some types) merged library resolves) ∙ accepted) in
    let m =
      check_strategy-Marked inputs given refl strategy new_checker refl clean
        (record { ready = tt; linked = refl; variables = tt; done = λ kind name f h. cc }) in
    (m.named, m.distinct)
