-- ===== src/Context/Check/Sound/Marked.antt =====
-- rust/crates/zf-context/src/context.rs: the identifiers of a program's blocks, and what a set of
-- identifiers gains when some are marked.
use zedflow.Base.{
  String, ◌≡◌, refl, inl, inr, true, false, List, [], ◌∷◌, ◌++◌, All, contains, contains-append,
  str_eq, eq_iff, Bool-cases, arith,
}
use zedflow.Base.Text.{is_blank}
use zedflow.Base.Sets.{Set}
use zedflow.Context.Language.{ContextBlock, ContextBlocks, no_blocks, block, block_id}
use zedflow.Context.Check.Sound.Reports.{chosen}

-- All the identifiers of a program's blocks, in the order of the walk.
abbrev mutual
  pub inner_ids : ContextBlock → List String
  inner_ids (ContextBlock.for_each id value name body) = program_ids body
  inner_ids (ContextBlock.group id label body) = program_ids body
  inner_ids (ContextBlock.emit id role format value) = []
  inner_ids (ContextBlock.branch id condition chosen otherwise) =
      program_ids chosen ++ program_ids otherwise

  pub program_ids : ContextBlocks → List String
  program_ids no_blocks = []
  program_ids (block b rest) = block_id b ∷ inner_ids b ++ program_ids rest

abbrev pub Distinct : List String → Type 0
Distinct [] = Unit
Distinct (x ∷ xs) = (contains xs x ≡ false) × Distinct xs

-- The identifiers that are in the second set and not in the first.
pub record Marked (xs : List String) (before after : Set) : Type 0 where
  pub named : All (λ x. is_blank x ≡ false) xs
  pub fresh : All (λ x. contains before x ≡ false) xs
  pub held : All (λ x. contains after x ≡ true) xs
  pub distinct : Distinct xs

All-append : (P : String → Type 0) (xs ys : List String) → All P xs → All P ys → All P (xs ++ ys)
All-append P [] ys ps qs = qs
All-append P (x ∷ xs) ys (p, ps) qs = (p, All-append P xs ys ps qs)

All-map :
    {P Q : String → Type 0} (xs : List String) → ((x : String) → P x → Q x) → All P xs → All Q xs
All-map [] f ps = tt
All-map (x ∷ xs) f (p, ps) = (f x p, All-map xs f ps)

absent :
    (s : Set) (ys : List String) (x : String)
    → All (λ y. contains s y ≡ false) ys
    → contains s x ≡ true
    → contains ys x ≡ false
absent s [] x ps h = refl
absent s (y ∷ ys) x (p, ps) h = elim (Bool-cases (str_eq y x)) [
  | inl e ↦ let same : y ≡ x = (eq_iff y x).0 e in absurd (cc)
  | inr e ↦ ground (arith, e, absent s ys x ps h)
]

Distinct-append :
    (xs ys : List String)
    → Distinct xs
    → Distinct ys
    → All (λ x. contains ys x ≡ false) xs
    → Distinct (xs ++ ys)
Distinct-append [] ys ds es gone = es
Distinct-append (x ∷ xs) ys (d, ds) es (a, gone) =
    (ground (arith, contains-append xs ys x, d, a), Distinct-append xs ys ds es gone)

-- What was marked first and what was marked then.
pub Marked-append :
    (xs ys : List String) (a b c : Set)
    → ((x : String) → contains a x ≡ true → contains b x ≡ true)
    → ((x : String) → contains b x ≡ true → contains c x ≡ true)
    → Marked xs a b
    → Marked ys b c
    → Marked (xs ++ ys) a c
Marked-append xs ys a b c first later m n = record {
  named = All-append _ xs ys m.named n.named;
  fresh = All-append _ xs ys m.fresh (
      All-map ys
        (λ y absent_b. elim (Bool-cases (contains a y)) [
          | inl e ↦ let there = first y e in absurd (cc)
          | inr e ↦ e
        ])
        n.fresh);
  held = All-append _ xs ys (All-map xs later m.held) n.held;
  distinct =
      Distinct-append xs ys m.distinct n.distinct
        (All-map xs (λ x held. absent b ys x n.fresh held) m.held);
}
