-- ===== src/Context/Check/Sound/Identifiers.antt =====
-- rust/crates/zf-context/src/context.rs, `Checker::blocks`: the identifiers of the blocks that were
-- checked are not blank, were not met before, and all differ.
use zedflow.Base.{
  ℕ, suc, ◌-◌, String, ◌≡◌, refl, subst, sym, inl, inr, Bool, true, false, ◌||◌, Option, none, some,
  List, [], ◌∷◌, ◌++◌, contains, eq_refl, if◌then◌else◌, Bool-cases, arith,
}
use zedflow.Base.Text.{is_blank}
use zedflow.Base.Maps
use zedflow.Base.Maps.{All-get, All-insert}
use zedflow.Base.Sets.{contains-insert}
use zedflow.Core.Types.{DataType}
use zedflow.Context.Language.{
  ContextBlock, ContextBlocks, no_blocks, block, block_id, ContextStrategy,
}
use zedflow.Context.Evaluate.State.{Inputs}
use zedflow.Context.Evaluate.Runs.Required.{Requires}
use zedflow.Context.Check.{Subject, Checker, Check, answer, ◌>>=◌, error, error_if, depth}
use zedflow.Context.Check.Terms.Names.{with_variable}
use zedflow.Context.Check.Blocks.{
  enter_id, within_item, check_block, check_blocks, check_declarations, check_strategy,
}
use zedflow.Context.Check.Grounded.{Found, IsGrounded}
use zedflow.Context.Check.Sound.{Knows, sound-answer, sound-weaken, ◌⟫◌}
use zedflow.Context.Check.Sound.Reports.{sound-error_if, sound-depth, push_limited-reports, chosen}
use zedflow.Context.Check.Sound.Scopes.{sound-with_variable, restore_diagnostics, restore_ids}
use zedflow.Context.Check.Sound.Terms.{Keeps, Required, sound-collection_item}
use zedflow.Context.Check.Sound.Recursion.{level, calls_at}
use zedflow.Context.Check.Sound.Blocks.{sound-enter_id, sound-check_block, sound-check_declarations}
use zedflow.Context.Check.Sound.Marked.{inner_ids, program_ids, Marked, Marked-append}

module _ (inputs : Inputs) (given : Subject) (same : given.requirements ≡ inputs.requirements) where
  -- What a method keeps, with the identifiers that it marks.
  pub record Marking {A : Type 0} (H : Type 0) (P : A → Type 0) (ids : List String) (m : Check A)
      : Type 0 where
    pub keeps : Keeps inputs given H P m
    pub marked :
        (c : Checker)
        → (m c).1.diagnostics ≡ []
        → Knows (Required given) inputs given c
        → H
        → Marked ids c.ids (m c).1.ids

  marking :
      {H A : Type 0} {P : A → Type 0} {m : Check A} → Keeps inputs given H P m → Marking H P [] m
  marking s = record {
    keeps = s;
    marked = λ c h k g. record { named = tt; fresh = tt; held = tt; distinct = tt };
  }

  infixl 1 ◌⊳◌
  ◌⊳◌ :
      {H A B : Type 0} {P : A → Type 0} {Q : B → Type 0} {xs ys : List String} {m : Check A}
      {f : A → Check B}
      → Marking H P xs m
      → ((a : A) → Marking (H × P a) Q ys (f a))
      → Marking H Q (xs ++ ys) (m >>= f)
  unfolding ◌>>=◌
  ◌⊳◌ {xs} {ys} {m} {f} first later = record {
    keeps = first.keeps ⟫ λ a. (later a).keeps;
    marked = λ c h k g.
        let a = (m c).0 in
        let d = (m c).1 in
        let clean = (later a).keeps.kept d h in
        let (p, k') = first.keeps.sound c clean k g in
        Marked-append xs ys c.ids d.ids (f a d).1.ids (λ x i. first.keeps.grown c x clean i)
          (λ x i. (later a).keeps.grown d x h i) (first.marked c clean k g)
          ((later a).marked d h k' (g, p));
  }

  refocus :
      {H G A : Type 0} {P Q : A → Type 0} {xs : List String} {m : Check A}
      → (H → G)
      → ((a : A) → H → Q a → P a)
      → Marking G Q xs m
      → Marking H P xs m
  refocus g p s = record {
    keeps = sound-weaken g p s.keeps;
    marked = λ c h k hyp. s.marked c h k (g hyp);
  }

  -- Nothing is claimed where the hypothesis fails.
  impossible :
      {H A : Type 0} {P : A → Type 0} {xs : List String} {m : Check A}
      → Keeps inputs given H P m
      → ¬ H
      → Marking H P xs m
  impossible s never = record { keeps = s; marked = λ c h k g. absurd (never g) }

  Marking-chosen :
      {H A : Type 0} {P : A → Type 0} {xs : List String} {m : Check A} (b : Bool) (a : A)
      → Marking H P xs m
      → Marking (H × (b ≡ true)) P xs (if b then m else answer a)
  Marking-chosen true a s = refocus (λ h. h.0) (λ _ _ p. p) s
  Marking-chosen false a s = impossible (sound-answer a (λ h. cc)) (λ h. cc)

  Marking-enter :
      {H A : Type 0} {P : A → Type 0} {xs : List String} {m : Check A} (n : ℕ) (path : String)
      (a : A)
      → Marking H P xs m
      → Marking H P xs (depth given n path >>= λ inside. if inside then m else answer a)
  Marking-enter n path a s = marking (sound-depth n path) ⊳ λ inside. Marking-chosen inside a s

  Marking-enter_id :
      {H : Type 0} (id path : String) → Marking H (λ _. Unit) (id ∷ []) (enter_id given id path)
  unfolding enter_id error_if error
  Marking-enter_id id path = record {
    keeps = sound-enter_id id path;
    marked = λ c. elim (Bool-cases (is_blank id || contains c.ids id)) [
      | inl e ↦ rw (e, error_if) (λ h. absurd (push_limited-reports _ _ h))
      | inr e ↦
          rw (e, error_if)
            (λ h k g. record {
              named = (ground (arith, e), tt);
              fresh = (ground (arith, e), tt);
              held = (ground (arith, e, contains-insert c.ids id id, eq_refl id), tt);
              distinct = (refl, tt);
            })
    ];
  }

  Marking-within_item :
      {H : Type 0} {P : Unit {0} → Type 0} {xs : List String} {m : Check (Unit {0})} (R : Type 0)
      (o : Option DataType) (name : String)
      → (H → Found (λ t. IsGrounded given.types t × R) o)
      → Marking H P xs m
      → Marking H P xs (within_item given o name m)
  unfolding within_item with_variable
  Marking-within_item R none name known s =
      impossible (sound-answer tt (λ h. absurd (known h))) known
  Marking-within_item {m} R (some t) name known s = record {
    keeps = sound-with_variable name t (λ h. (known h).0) s.keeps;
    marked = λ c h k g.
        let entered : Checker = record c { variables = Maps.insert c.variables name t } in
        let back = Maps.get c.variables name in
        let knows : Knows (Required given) inputs given entered = record {
          ready = k.ready;
          linked = k.linked;
          variables =
              All-insert (IsGrounded given.types) c.variables name t k.variables (known g).0;
          done = k.done;
        } in
        subst (Marked _ c.ids) (sym (restore_ids name back (m entered).1))
          (s.marked entered (rw (restore_diagnostics name back (m entered).1) at h) knows g);
  }

  mutual
    unfolding check_block check_blocks

    Marking-check_block :
        (b : ContextBlock) {H : Type 0} (left : ℕ) (path : String)
        → Marking H (λ _. Unit) (inner_ids b) (check_block given b left path)
    Marking-check_block (ContextBlock.for_each id value name body) left path =
        marking (
          sound-collection_item inputs given
            (calls_at inputs given same left (level inputs given same left)) value name _)
        ⊳ λ o.
            Marking-within_item (Requires inputs value) o name (λ h. h.1)
              (Marking-check_blocks body 0 left _)
    Marking-check_block (ContextBlock.group id label body) left path =
        marking (sound-error_if _ _ _ _) ⊳ λ _. Marking-check_blocks body 0 left _
    Marking-check_block (ContextBlock.emit id role format value) left path = marking (
        sound-weaken (λ h. h) (λ _ _ _. tt)
          (sound-check_block inputs given same (ContextBlock.emit id role format value) left path))
    Marking-check_block (ContextBlock.branch id condition chosen otherwise) left path =
        marking ((level inputs given same left).predicate _ condition _)
        ⊳ (λ _. Marking-check_blocks chosen 0 left _)
        ⊳ λ _. Marking-check_blocks otherwise 0 left _

    pub Marking-check_blocks :
        (bs : ContextBlocks) {H : Type 0} (i left : ℕ) (path : String)
        → Marking H (λ _. Unit) (program_ids bs) (check_blocks given bs i left path)
    Marking-check_blocks no_blocks i left path = marking (sound-answer tt (λ h. tt))
    Marking-check_blocks (block b rest) i left path = Marking-enter left _ tt (
        Marking-enter_id (block_id b) _ ⊳ (λ _. Marking-check_block b (left - 1) _) ⊳ λ _.
        Marking-check_blocks rest (suc i) left path)

  pub check_strategy-Marked :
      (strategy : ContextStrategy) (c : Checker)
      → given.requirements ≡ strategy.requirements
      → (check_strategy given strategy c).1.diagnostics ≡ []
      → Knows Unit inputs given c
      → Marked
          (program_ids strategy.program)
          (check_declarations given strategy c).1.ids
          (check_strategy given strategy c).1.ids
  unfolding check_strategy ◌>>=◌
  check_strategy-Marked strategy c own h k =
      let d = (check_declarations given strategy c).1 in
      let blocks = Marking-check_blocks strategy.program {H = Unit {0}} 0 65 "program" in
      let (declared, k') =
        (sound-check_declarations inputs given same {H = Unit {0}} strategy own).sound c
          (blocks.keeps.kept d h) k tt in
      blocks.marked d h
        (record {
          ready = declared.0;
          linked = k'.linked;
          variables = k'.variables;
          done = k'.done;
        })
        tt
