-- ===== src/Compiler/Resolve/Search.antt =====
-- The search of `can_reuse` ends, and finds exactly the scopes that a bridge requires, directly or
-- through other bridges.
use zedflow.Base.{
  ℕ, zero, suc, ◌+◌, ◌≤◌, String, ◌≡◌, refl, subst, Bool, true, false, Option, some, List, [], ◌∷◌,
  arith, str_eq, eq_iff, if◌then◌else◌, contains, length, ◌⊎◌, inl, inr, ◌↔◌, Bool-cases,
  Option-cases, ◌||◌,
}
use zedflow.Base.Text.{split_once}
use zedflow.Base.Maps
use zedflow.Base.Maps.{Map}
use zedflow.Base.Sets
use zedflow.Base.Sets.{Set, contains-insert}
use zedflow.Flows.Composition.{BridgeDefinition}
use zedflow.Compiler.Resolve.Bridges.{requires_of, push_all, search_scope, requirements, can_reuse}

-- What is still to come onto the stack from bridges that were not seen.
abbrev left : Map BridgeDefinition → Set → ℕ
left [] seen = 0
left ((id, bridge) ∷ rest) seen =
    (if contains seen id then 0 else length bridge.requires) + left rest seen

left-insert :
    (m : Map BridgeDefinition) (seen : Set) (x : String) → left m (Sets.insert seen x) ≤ left m seen
left-insert [] seen x = omega arith
left-insert ((id, b) ∷ rest) seen x =
    ground (arith, left-insert rest seen x, contains-insert seen x id)

left-get :
    (m : Map BridgeDefinition) (seen : Set) (x : String)
    → contains seen x ≡ false
    → left m (Sets.insert seen x) + length (requires_of (Maps.get m x)) ≤ left m seen
unfolding Maps.get
left-get [] seen x h = omega arith
left-get ((id, b) ∷ rest) seen x h = ground (
  arith,
  left-get rest seen x h,
  left-insert rest seen x,
  contains-insert seen x id,
  eq_iff id x,
  eq_iff x id,
)

length-push_all : (xs ys : List String) → length (push_all xs ys) ≡ length xs + length ys
length-push_all [] ys = omega arith
length-push_all (x ∷ xs) ys = omega (arith, length-push_all xs (x ∷ ys))

contains-push_all :
    (xs ys : List String) (y : String)
    → contains (push_all xs ys) y ≡ (contains xs y || contains ys y)
contains-push_all [] ys y = refl
contains-push_all (x ∷ xs) ys y = ground (arith, contains-push_all xs (x ∷ ys) y)

left_of_none : (m : Map BridgeDefinition) → left m [] ≡ requirements m
left_of_none [] = refl
left_of_none ((id, b) ∷ rest) = omega (arith, left_of_none rest)

-- A bridge is reached from one that requires it, directly or through others.
pub data Reaches (bridges : Map BridgeDefinition) : String → String → Type 0 where
  here : {a : String} → Reaches bridges a a
  through :
      (a y c : String)
      → contains (requires_of (Maps.get bridges a)) y ≡ true
      → Reaches bridges y c
      → Reaches bridges a c

module _ (bridges : Map BridgeDefinition) where
  abbrev needs : String → String → Bool
  needs x y = contains (requires_of (Maps.get bridges x)) y

  -- What a seen bridge requires was seen, or is on the stack.
  abbrev Frontier : List String → Set → Type 0
  Frontier pending seen =
      (x y : String)
      → contains seen x ≡ true
      → needs x y ≡ true
      → (contains seen y || contains pending y) ≡ true

  stays :
      (seen : Set) {a c : String}
      → Frontier [] seen
      → contains seen a ≡ true
      → Reaches bridges a c
      → contains seen c ≡ true
  stays seen f h here = h
  stays seen f h (through a y c e r) = stays seen f (ground (arith, f a y h e)) r

  module _ (scope : String) where
    abbrev Answers : List String → Set → Option Bool → Type 0
    Answers pending seen o =
        (b : Bool) × (o ≡ some b)
        × (b ≡ true → (x : String) × (contains pending x ≡ true) × Reaches bridges x scope)
        × (b ≡ false
            → (x : String) → (contains seen x || contains pending x) ≡ true
            → ¬ Reaches bridges x scope)

    search_scope-Answers :
        (fuel : ℕ) (pending : List String) (seen : Set)
        → length pending + left bridges seen ≤ fuel
        → Frontier pending seen
        → contains seen scope ≡ false
        → Answers pending seen (search_scope fuel bridges scope pending seen)
    unfolding search_scope
    search_scope-Answers fuel [] seen enough f new =
        (false, refl, λ h. cc, λ _ x h r. absurd (ground (arith, stays seen f (ground arith) r)))
    search_scope-Answers zero (next ∷ pending) seen enough f new = absurd (omega arith)
    search_scope-Answers (suc fuel) (next ∷ pending) seen enough f new =
        elim (Bool-cases (str_eq next scope)) [
          | inl e ↦
              rw (search_scope, e)
                (
                  true,
                  refl,
                  λ _. (
                    next,
                    ground (arith, eq_iff next next),
                    subst (Reaches bridges next) ((eq_iff next scope).0 e) here,
                  ),
                  λ h. cc,
                )
          | inr e ↦
              rw (search_scope, e)
                (elim (Bool-cases (contains seen next)) [
                  | inl old ↦
                      let (b, same, found_by, not_by) =
                        search_scope-Answers fuel pending seen (omega (arith, enough))
                          (λ x y h k. ground (arith, f x y h k, eq_iff next y)) new in
                      rw old (
                        b,
                        same,
                        λ h. let (x, k, r) = found_by h in (x, ground arith, r),
                        λ h x k. not_by h x (ground (arith, eq_iff next x)),
                      )
                  | inr fresh ↦
                      let more = requires_of (Maps.get bridges next) in
                      let (b, same, found_by, not_by) =
                        search_scope-Answers fuel (push_all more pending) (Sets.insert seen next)
                          (omega (
                            arith,
                            length-push_all more pending,
                            left-get bridges seen next fresh,
                            enough,
                          ))
                          (λ x y h k. elim (Bool-cases (str_eq next x)) [
                            | inl e ↦
                                let needed : contains more y ≡ true =
                                  subst (λ z. needs z y ≡ true)
                                    ((eq_iff x next).0
                                      (ground (arith, eq_iff x next, eq_iff next x)))
                                    k in
                                ground (arith, contains-push_all more pending y)
                            | inr e ↦
                                let known : contains seen x ≡ true =
                                  ground (arith, contains-insert seen next x) in
                                ground (
                                  arith,
                                  f x y known k,
                                  contains-insert seen next y,
                                  contains-push_all more pending y,
                                )
                          ])
                          (ground (arith, contains-insert seen next scope, eq_iff next scope)) in
                      rw fresh (
                        b,
                        same,
                        λ h.
                            let (x, k, r) = found_by h in
                            elim (Bool-cases (contains more x)) [
                              | inl e ↦
                                  (next, ground (arith, eq_iff next next), through next x scope e r)
                              | inr e ↦ (x, ground (arith, contains-push_all more pending x), r)
                            ],
                        λ h x k. not_by h x (
                            ground (
                              arith,
                              contains-insert seen next x,
                              contains-push_all more pending x,
                              eq_iff next x,
                            )),
                      )
                ])
        ]

-- An import of a bridge may reuse the root, and what belongs to a bridge that its own reaches.
abbrev pub MayReuse : Map BridgeDefinition → String → String → Type 0
MayReuse bridges owner target =
    (target ≡ "root")
    ⊎ ((scope rest : String) × (split_once b'/' target ≡ some (scope, rest))
        × Reaches bridges owner scope)

decide_reuse :
    (owner target : String) (bridges : Map BridgeDefinition)
    → (b : Bool) × (can_reuse owner target bridges ≡ some b)
      × (b ≡ true → MayReuse bridges owner target)
      × (b ≡ false → ¬ MayReuse bridges owner target)
unfolding can_reuse
decide_reuse owner target bridges = elim (Bool-cases (str_eq target "root")) [
  | inl e ↦ rw e (true, refl, λ _. inl ((eq_iff target "root").0 e), λ h. cc)
  | inr e ↦ rw e (elim (Option-cases (split_once b'/' target)) [
    | inl unsplit ↦ rw unsplit (
      false,
      refl,
      λ h. cc,
      λ _ may. elim may [
        | inl root ↦ ground (arith, eq_iff target "root")
        | inr (scope, rest, split, r) ↦ cc
      ],
    )
    | inr ((scope, rest), split) ↦
        let (b, same, found_by, not_by) =
          search_scope-Answers bridges scope (suc (requirements bridges)) (owner ∷ []) []
            (omega (arith, left_of_none bridges)) (λ x y h k. cc) refl in
        rw split (
          b,
          same,
          λ h.
              let (x, k, r) = found_by h in
              inr (
                scope,
                rest,
                refl,
                subst (λ z. Reaches bridges z scope)
                    ((eq_iff x owner).0 (ground (arith, eq_iff x owner, eq_iff owner x))) r,
              ),
          λ h may. elim may [
            | inl root ↦ ground (arith, eq_iff target "root")
            | inr (other, rest', split', r) ↦
                let agree : other ≡ scope = cc in
                not_by h owner (ground (arith, eq_iff owner owner))
                  (subst (Reaches bridges owner) agree r)
          ],
        )
  ])
]

-- The scope check ends on every catalog, cyclic ones included, and answers `true` exactly for
-- `root` and for the aliases whose bridge is the owner's own or one that the owner requires, directly
-- or through others.
pub can_reuse-MayReuse :
    (owner target : String) (bridges : Map BridgeDefinition)
    → (b : Bool) × (can_reuse owner target bridges ≡ some b)
      × (b ≡ true ↔ MayReuse bridges owner target)
can_reuse-MayReuse owner target bridges =
    let (b, same, allows, denies) = decide_reuse owner target bridges in
    (b, same, (allows, λ may. elim (Bool-cases b) [ inl e ↦ e | inr e ↦ absurd (denies e may) ]))
