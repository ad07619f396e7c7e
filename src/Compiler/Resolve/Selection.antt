-- ===== src/Compiler/Resolve/Selection.antt =====
-- The walk over the requirements of bridges ends within its fuel, and what it selects is closed.
use zedflow.Base.{
  ℕ, zero, suc, ◌+◌, ◌≤◌, ◌<◌, String, ◌<>◌, ◌≡◌, refl, ap, ◌∙◌, subst, true, false, Option, some,
  List, [], ◌∷◌, ◌++◌, arith, ltb, str_eq, eq_iff, contains, length, inl, inr, Bool-cases,
  Option-cases, append-eq-nil, snoc-ne-nil,
}
use zedflow.Base.Panic.{fold_each}
use zedflow.Base.Maps
use zedflow.Base.Maps.{Map}
use zedflow.Base.Sets
use zedflow.Base.Sets.{Set, contains-insert, length-insert, remove-insert}
use zedflow.Core.Diagnostic.{diagnostic}
use zedflow.Flows.Composition.{BridgeDefinition}
use zedflow.Compiler.Resolve.{name_errors}
use zedflow.Compiler.Resolve.Bridges.{
  max_depth, Deps, fail, bridge_path, enter_bridge, leave, visit_bridge, dependencies,
}

module _ (bridges : Map BridgeDefinition) where
  -- Every selected bridge is declared.
  abbrev pub Declared : Set → Type 0
  Declared active =
      (x : String)
      → contains active x ≡ true
      → (b : BridgeDefinition) × (Maps.get bridges x ≡ some b)

  -- A selected bridge's requirements are selected too.
  abbrev pub Closed : Set → Type 0
  Closed active =
      (x y : String) (b : BridgeDefinition)
      → contains active x ≡ true
      → Maps.get bridges x ≡ some b
      → contains b.requires y ≡ true
      → contains active y ≡ true

  -- How a part of the walk changes its state.
  pub record Grows (s t : Deps) : Type 0 where
    pub visiting : t.visiting ≡ s.visiting
    pub errors : t.errors ≡ [] → s.errors ≡ []
    pub active : (x : String) → contains s.active x ≡ true → contains t.active x ≡ true
    pub declared : Declared s.active → Declared t.active
    pub closed : t.errors ≡ [] → Closed s.active → Closed t.active

  Grows-trans : (s t u : Deps) → Grows s t → Grows t u → Grows s u
  Grows-trans s t u g h = record {
    visiting = h.visiting ∙ g.visiting;
    errors = λ e. g.errors (h.errors e);
    active = λ x c. h.active x (g.active x c);
    declared = λ d. h.declared (g.declared d);
    closed = λ e c. h.closed e (g.closed (h.errors e) c);
  }

  Grows-refl : (s : Deps) → Grows s s
  Grows-refl s = record {
    visiting = refl;
    errors = λ e. e;
    active = λ x c. c;
    declared = λ d. d;
    closed = λ e c. c;
  }

  -- The walk from a name ends, and selects the name unless it reports an error.
  abbrev pub Visits : Option Deps → String → Deps → Type 0
  Visits o id s =
      (t : Deps) × (o ≡ some t) × Grows s t × (t.errors ≡ [] → contains t.active id ≡ true)

  -- Where an error is reported, nothing else is to show.
  fail-Grows : (code path message : String) (s : Deps) → Grows s (fail code path message s)
  fail-Grows code path message s =
      let fails = snoc-ne-nil s.errors (diagnostic code path message) in
      record {
        visiting = refl;
        errors = λ e. absurd (fails e);
        active = λ x c. c;
        declared = λ d. d;
        closed = λ e. absurd (fails e);
      }

  fail-Visits :
      (code path message id : String) (s : Deps) → Visits (some (fail code path message s)) id s
  fail-Visits code path message id s = (
    fail code path message s,
    refl,
    fail-Grows code path message s,
    λ e. absurd (snoc-ne-nil s.errors (diagnostic code path message) e),
  )

  pub fold-Visits :
      (walk : String → Deps → Option Deps) (v : Set)
      → ((id : String) (s : Deps) → s.visiting ≡ v → Visits (walk id s) id s)
      → (ids : List String) (s : Deps) → s.visiting ≡ v
      → (t : Deps) × (fold_each walk ids s ≡ some t)
        × Grows s t
        × (t.errors ≡ [] → (y : String) → contains ids y ≡ true → contains t.active y ≡ true)
  fold-Visits walk v each [] s e = (s, refl, Grows-refl s, λ _ y h. cc)
  fold-Visits walk v each (id ∷ ids) s e =
      let (t, here, g, found) = each id s e in
      let (u, rest, h, all) = fold-Visits walk v each ids t (g.visiting ∙ e) in
      (
        u,
        rw here rest,
        Grows-trans s t u g h,
        λ clean y c. elim (Bool-cases (str_eq id y)) [
          | inl same ↦ h.active y (
              subst (λ z. contains t.active z ≡ true) ((eq_iff id y).0 same)
                (found (h.errors clean)))
          | inr other ↦ all clean y (ground arith)
        ],
      )

  module _ (walk : String → Deps → Option Deps) (id : String) where
    -- The branch on the bridge, from a state in which its name was entered.
    enter_bridge-Visits :
        (s : Deps)
        → ((y : String) (t : Deps) → t.visiting ≡ s.visiting → Visits (walk y t) y t)
        → Visits (enter_bridge walk id (Maps.get bridges id) s) id s
    unfolding enter_bridge
    enter_bridge-Visits s each = elim (Option-cases (Maps.get bridges id)) [
      | inl absent ↦
          rw absent (fail-Visits "missing_bridge" (bridge_path id) "Required bridge is absent" id s)
      | inr (b, found) ↦
          let named = record s { errors = s.errors ++ name_errors id (bridge_path id) } in
          let (t, walked, g, all) = fold-Visits walk s.visiting each b.requires named refl in
          rw found (
            rw walked (
              _,
              refl,
              record {
                visiting = g.visiting;
                errors = λ e. (append-eq-nil s.errors _ (g.errors e)).0;
                active = λ x c. ground (arith, contains-insert t.active id x, g.active x c);
                declared = λ d x c. elim (Bool-cases (str_eq id x)) [
                  | inl same ↦
                      (b, subst (λ z. Maps.get bridges z ≡ some b) ((eq_iff id x).0 same) found)
                  | inr other ↦ g.declared d x (ground (arith, contains-insert t.active id x))
                ];
                closed = λ e c x y k inside at below. elim (Bool-cases (str_eq id x)) [
                  | inl same ↦
                      let at_id =
                        subst (λ z. Maps.get bridges z ≡ some k)
                          ((eq_iff x id).0 (ground (arith, eq_iff id x, eq_iff x id))) at in
                      let mine : contains b.requires y ≡ true = cc in
                      ground (arith, contains-insert t.active id y, all e y mine)
                  | inr other ↦
                      let before =
                        g.closed e c x y k (ground (arith, contains-insert t.active id x)) at
                          below in
                      ground (arith, contains-insert t.active id y, before)
                ];
              },
              λ e. ground (arith, contains-insert t.active id id, eq_iff id id),
            ))
    ]

  -- What is left behind is what was there, where the walk inside gives its set back.
  leave-Visits :
      (id : String) (s t : Deps)
      → contains s.visiting id ≡ false
      → Grows (record s { visiting = Sets.insert s.visiting id }) t
      → Grows s (leave id t)
  leave-Visits id s t fresh g = record {
    visiting = ap (λ v. Sets.remove v id) g.visiting ∙ remove-insert s.visiting id fresh;
    errors = g.errors;
    active = g.active;
    declared = g.declared;
    closed = g.closed;
  }

  visit_bridge-Visits :
      (walk : String → Deps → Option Deps) (id : String) (s : Deps)
      → length s.visiting ≤ max_depth
      → ((y : String) (t : Deps)
          → t.visiting ≡ Sets.insert s.visiting id
          → suc (length s.visiting) ≤ max_depth
          → length t.visiting ≡ suc (length s.visiting)
          → Visits (walk y t) y t)
      → Visits (visit_bridge walk bridges id s) id s
  unfolding visit_bridge
  visit_bridge-Visits walk id s bounded each = elim (Bool-cases (contains s.active id)) [
    | inl known ↦ rw known (s, refl, Grows-refl s, λ _. known)
    | inr new ↦ rw new (elim (Bool-cases (contains s.visiting id)) [
      | inl cyclic ↦ rw cyclic (
          fail-Visits "bridge_cycle" (bridge_path id <> ".requires") "Cyclic bridge dependencies" id
            s)
      | inr fresh ↦
          let entered = record s { visiting = Sets.insert s.visiting id } in
          let longer = length-insert s.visiting id fresh in
          rw fresh (elim (Bool-cases (ltb max_depth (length entered.visiting))) [
            | inl deep ↦ rw deep (
              _,
              refl,
              leave-Visits id s _ fresh (
                  fail-Grows "composition_depth" (bridge_path id)
                    "Bridge dependency depth exceeds 128" entered),
              λ e. absurd (snoc-ne-nil s.errors _ e),
            )
            | inr shallow ↦
                let (t, walked, g, found) =
                  enter_bridge-Visits walk id entered
                    (λ y t e. each y t e (ground arith) (rw e longer)) in
                rw shallow (rw walked (_, refl, leave-Visits id s t fresh g, found))
          ])
    ])
  ]

  -- With fuel for what is left of the depth, the walk ends without a panic. What it selects grows,
  -- it leaves the set of visited names as it found it, every bridge that it adds is declared, and
  -- unless it reports an error the name is selected and the selection stays closed under
  -- requirements.
  pub dependencies-Visits :
      (fuel : ℕ) (id : String) (s : Deps)
      → length s.visiting ≤ max_depth
      → max_depth < length s.visiting + fuel
      → Visits (dependencies fuel bridges id s) id s
  unfolding dependencies
  dependencies-Visits zero id s bounded enough = absurd (omega arith)
  dependencies-Visits (suc fuel) id s bounded enough =
      visit_bridge-Visits (dependencies fuel bridges) id s bounded (λ y t _ room longer.
        dependencies-Visits fuel y t (omega (arith, longer, room)) (omega (arith, longer, enough)))
