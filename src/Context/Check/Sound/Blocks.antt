-- ===== src/Context/Check/Sound/Blocks.antt =====
-- rust/crates/zf-context/src/context.rs: `Checker::blocks`, and the loops of `check`.
use zedflow.Base.{
  contains, Bool, true, arith, if◌then◌else◌, ℕ, suc, ◌-◌, String, ◌≡◌, sym, subst, Option, none,
  some, List, [], ◌∷◌, All, if◌then◌else◌,
}
use zedflow.Base.Text.{is_blank}
use zedflow.Base.Maps.{Map, values, keys}
use zedflow.Base.Sets
use zedflow.Base.Sets.{contains-insert, Set}
use zedflow.Core.Types.{DataType}
use zedflow.Context.Fragment.{ContextCapability}
use zedflow.Context.Language.{
  ContextBlock, ContextBlocks, no_blocks, block, ContextStrategy, LibraryKind, projection,
  subprogram, ContextFunction, function_of,
}
use zedflow.Context.Evaluate.State.{Inputs}
use zedflow.Context.Evaluate.Runs.Required.{Requires, RequiresBlock, RequiresBlocks}
use zedflow.Context.Check.{Subject, Check}
use zedflow.Context.Check.Blocks.{
  enter_id, within_item, check_block, check_blocks, check_named_types, check_capabilities,
  check_functions, check_declarations, check_strategy,
}
use zedflow.Context.Check.Grounded.{Found, IsGrounded}
use zedflow.Context.Check.Sound.{Sound, IsKnown, sound-answer, sound-weaken, holding, ◌⟫◌}
use zedflow.Context.Check.Sound.Reports.{sound-error_if, sound-data_type, sound-enter}
use zedflow.Context.Check.Sound.Scopes.{sound-with_variable, sound-lift, sound-ids}
use zedflow.Context.Check.Sound.Terms.{Keeps, Required, of_found, sound-collection_item}
use zedflow.Context.Check.Sound.Recursion.{level, calls_at}

kept_ids :
    (ids : Set) (id x : String) (b : Bool)
    → contains ids x ≡ true
    → contains (if b then ids else Sets.insert ids id) x ≡ true
kept_ids ids id x b i = ground (arith, i, contains-insert ids id x)

module _ {Ready : Type 0} {inputs : Inputs} {given : Subject} where
  sound-named_types :
      (prefix code message : String) (m : Map DataType) {H : Type 0}
      → Sound Ready inputs given H
          (λ _. All (IsGrounded given.types) (values m))
          (check_named_types given prefix code message m)
  unfolding check_named_types
  sound-named_types prefix code message [] = sound-answer tt (λ h. tt)
  sound-named_types prefix code message ((name, t) ∷ rest) =
      sound-error_if _ _ _ _ ⟫ (λ _. sound-data_type t _) ⟫ λ _.
      sound-weaken (λ h. h) (λ _ h later. (h.1, later)) (sound-named_types prefix code message rest)

  sound-capabilities :
      (capabilities : List ContextCapability) {H : Type 0} (i : ℕ) (seen : Set)
      → Sound Ready inputs given H (λ _. Unit) (check_capabilities given capabilities i seen)
  unfolding check_capabilities
  sound-capabilities [] i seen = sound-answer tt (λ h. tt)
  sound-capabilities (capability ∷ rest) i seen =
      sound-error_if _ _ _ _
      ⟫ (λ _. sound-data_type capability.input _)
      ⟫ (λ _. sound-data_type capability.output _)
      ⟫ λ _. sound-capabilities rest (suc i) _

  pub sound-enter_id :
      {H : Type 0} (id path : String)
      → Sound Ready inputs given H (λ _. Unit) (enter_id given id path)
  unfolding enter_id
  sound-enter_id id path =
      sound-ids (λ c. if is_blank id then c.ids else Sets.insert c.ids id)
        (λ c x i. kept_ids c.ids id x (is_blank id) i)
        λ c. sound-weaken (λ h. h) (λ _ _ _. tt) (sound-error_if _ _ _ _)

module _ (inputs : Inputs) (given : Subject) (same : given.requirements ≡ inputs.requirements) where
  sound-within_item :
      {H : Type 0} {P : Unit {0} → Type 0} {m : Check (Unit {0})} (R : Type 0) (o : Option DataType)
      (name : String)
      → (H → Found (λ t. IsGrounded given.types t × R) o)
      → Keeps inputs given H P m
      → Keeps inputs given H P (within_item given o name m)
  unfolding within_item
  sound-within_item R none name known s = sound-answer tt (λ h. absurd (known h))
  sound-within_item R (some t) name known s = sound-with_variable name t (λ h. (known h).0) s

  mutual
    unfolding check_block RequiresBlock

    pub sound-check_block :
        (b : ContextBlock) {H : Type 0} (left : ℕ) (path : String)
        → Keeps inputs given H (λ _. RequiresBlock inputs b) (check_block given b left path)
    sound-check_block (ContextBlock.for_each id value name body) left path =
        sound-collection_item inputs given
          (calls_at inputs given same left (level inputs given same left)) value name _
        ⟫ λ o.
            sound-weaken (λ h. h) (λ _ h later. (of_found (IsGrounded given.types) o h.1, later))
              (sound-within_item (Requires inputs value) o name (λ h. h.1)
                (sound-check_blocks body 0 left _))
    sound-check_block (ContextBlock.group id label body) left path =
        sound-error_if _ _ _ _ ⟫ λ _. sound-check_blocks body 0 left _
    sound-check_block (ContextBlock.emit id role format value) left path =
        (level inputs given same left).expression _ value _ ⟫ λ o. sound-error_if _ _ _ _ ⟫ λ _.
        sound-weaken (λ h. h) (λ _ h _. of_found (IsGrounded given.types) o h.0.1)
          (sound-error_if _ _ _ _)
    sound-check_block (ContextBlock.branch id condition chosen otherwise) left path =
        (level inputs given same left).predicate _ condition _
        ⟫ (λ _. holding (sound-check_blocks chosen 0 left _))
        ⟫ λ _.
            sound-weaken (λ h. h) (λ _ h later. (h.1.0.1, h.1.1, later))
              (sound-check_blocks otherwise 0 left _)

    pub sound-check_blocks :
        (bs : ContextBlocks) {H : Type 0} (i left : ℕ) (path : String)
        → Keeps inputs given H (λ _. RequiresBlocks inputs bs) (check_blocks given bs i left path)
    sound-check_blocks no_blocks i left path = sound-answer tt (λ h. tt)
    sound-check_blocks (block b rest) i left path = sound-enter left _ tt (
        sound-enter_id _ _ ⟫ (λ _. sound-check_block b (left - 1) _) ⟫ λ _.
        sound-weaken (λ h. h) (λ _ h later. (h.1, later))
          (sound-check_blocks rest (suc i) left path))

  -- The functions of a catalog that were checked.
  abbrev pub Checked : LibraryKind → String → Type 0
  Checked kind name =
      (f : ContextFunction)
      → function_of given.library kind name ≡ some f
      → IsKnown (Required given) inputs given f

  checked :
      (kind : LibraryKind) (name : String) (o : Option DataType)
      → Found (λ t. IsGrounded given.types t × Checked kind name) o
      → Checked kind name
  checked kind name o = of_found (IsGrounded given.types) o

  sound-check_functions :
      (kind : LibraryKind) (names : List String) {H : Type 0}
      → Keeps inputs given H (λ _. All (Checked kind) names) (check_functions given kind names)
  unfolding check_functions
  sound-check_functions kind [] = sound-answer tt (λ h. tt)
  sound-check_functions kind (name ∷ names) =
      (level inputs given same 65).function _ kind name "library" ⟫ λ o.
      sound-weaken (λ h. h) (λ _ h later. (checked kind name o h.1, later))
        (sound-check_functions kind names)

  -- What an accepted strategy is known to have.
  abbrev pub Accepted : ContextStrategy → Type 0
  Accepted strategy =
      All (Checked projection) (keys given.library.projections)
      × All (Checked subprogram) (keys given.library.subprograms)
      × RequiresBlocks inputs strategy.program

  -- What is known before the program is checked.
  abbrev pub Declared : ContextStrategy → Type 0
  Declared strategy =
      Required given
      × (All (Checked projection) (keys given.library.projections)
          × All (Checked subprogram) (keys given.library.subprograms))

  pub sound-check_declarations :
      {H : Type 0} (strategy : ContextStrategy)
      → given.requirements ≡ strategy.requirements
      → Sound Unit inputs given H (λ _. Declared strategy) (check_declarations given strategy)
  unfolding check_declarations
  sound-check_declarations strategy own =
      let required : All (IsGrounded given.types) (values strategy.requirements) → Required given =
        subst (λ m. All (IsGrounded given.types) (values m)) (sym own) in
      sound-error_if _ _ _ _
      ⟫ (λ _. sound-error_if _ _ _ _)
      ⟫ (λ _. sound-error_if _ _ _ _)
      ⟫ (λ _. sound-named_types _ _ _ strategy.types)
      ⟫ (λ _. sound-named_types _ _ _ strategy.requirements)
      ⟫ (λ _. holding (sound-capabilities strategy.capabilities 0 []))
      ⟫ (λ _. holding (
          sound-lift (λ h. required h.1.0.1)
            (sound-check_functions projection (keys given.library.projections))))
      ⟫ λ _.
          sound-weaken (λ h. h) (λ _ h subprograms. (required h.1.0.1.0.1, (h.1.1, subprograms)))
            (sound-lift (λ h. required h.1.0.1.0.1)
              (sound-check_functions subprogram (keys given.library.subprograms)))

  pub sound-check_strategy :
      {H : Type 0} (strategy : ContextStrategy)
      → given.requirements ≡ strategy.requirements
      → Sound Unit inputs given H (λ _. Accepted strategy) (check_strategy given strategy)
  unfolding check_strategy
  sound-check_strategy strategy own = sound-check_declarations strategy own ⟫ λ _.
      sound-weaken (λ h. h) (λ _ h blocks. (h.1.1.0, h.1.1.1, blocks))
        (sound-lift (λ h. h.1.0) (sound-check_blocks strategy.program 0 65 "program"))
