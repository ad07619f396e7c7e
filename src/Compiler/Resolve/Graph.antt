-- ===== src/Compiler/Resolve/Graph.antt =====
-- What a graph that `resolve` gives is to satisfy, and what its last phases contribute.
use zedflow.Base.{
  All, String, ◌≡◌, refl, sym, ◌∙◌, subst, true, false, Option, some, List, [], ◌∷◌, arith, str_eq,
  eq_iff, contains, inl, inr, Bool-cases, append-eq-nil,
}
use zedflow.Base.Panic.{fold_each}
use zedflow.Base.Outcome.{Outcome, ok}
use zedflow.Base.Maps
use zedflow.Base.Maps.{
  All-get, Map, contains_key, keys, values, get-insert-other, get-insert-same, get-insert-cases,
}
use zedflow.Base.Sets
use zedflow.Base.Sets.{Set, contains-insert}
use zedflow.Json.{Value}
use zedflow.Flows.Predicate.{Predicate}
use zedflow.Flows.Composition.{
  FlowDefinition, endpoint, BridgeDefinition, CompositionCatalog, ResolveRequest,
}
use zedflow.Compiler.Resolve.{
  validate_flow, FlowInstance, Route, ResolvedDataBinding, RuntimeGraph, Errors,
}
use zedflow.Compiler.Resolve.Instancing.{Cataloged}
use zedflow.Compiler.Resolve.Routes.{IsTyped, Offers, IsGranted, Lives}
use zedflow.Compiler.Resolve.Total.{AllDeclared}
use zedflow.Compiler.Resolve.Plan.{validate_flows, copy_bridge, conclude}

-- The bridges of the graph are the selected ones, as the catalog declares them.
pub copy_bridge-fold :
    (bridges : Map BridgeDefinition) (ids : List String)
    → AllDeclared bridges ids
    → (s : Map BridgeDefinition)
    → (t : Map BridgeDefinition) × (fold_each (copy_bridge bridges) ids s ≡ some t)
      × ((x : String) → Maps.get s x ≡ Maps.get bridges x → Maps.get t x ≡ Maps.get bridges x)
      × ((x : String) → contains ids x ≡ true → Maps.get t x ≡ Maps.get bridges x)
      × ((x : String) → contains ids x ≡ false → Maps.get t x ≡ Maps.get s x)
unfolding copy_bridge
copy_bridge-fold bridges [] declared s = (s, refl, λ x h. h, λ x h. cc, λ x h. refl)
copy_bridge-fold bridges (id ∷ ids) declared s =
    let (b, found) = declared id (ground (arith, eq_iff id id)) in
    let (t, rest, kept, copied, left) =
      copy_bridge-fold bridges ids (λ x h. declared x (ground (arith, h))) (Maps.insert s id b) in
    let mine : Maps.get t id ≡ Maps.get bridges id = kept id (get-insert-same s id b ∙ sym found) in
    (
      t,
      rw found rest,
      λ x h. elim (Bool-cases (str_eq id x)) [
        | inl e ↦ subst (λ z. Maps.get t z ≡ Maps.get bridges z) ((eq_iff id x).0 e) mine
        | inr e ↦ kept x (get-insert-other s id x b e ∙ h)
      ],
      λ x h. elim (Bool-cases (str_eq id x)) [
        | inl e ↦ subst (λ z. Maps.get t z ≡ Maps.get bridges z) ((eq_iff id x).0 e) mine
        | inr e ↦ copied x (ground arith)
      ],
      λ x h. left x (ground arith) ∙ get-insert-other s id x b (ground arith),
    )

pub some-injective : {A : Type 0} {a b : A} → ◌≡◌ {A = Option A} (some a) (some b) → a ≡ b
some-injective h = cc

-- The loop checks the flow of every instance: a name that was checked before stands for the same
-- definition.
pub validate_flows-eq-nil :
    (catalog : CompositionCatalog) (is : List FlowInstance) (done : Set)
    → All (Cataloged catalog []) is
    → ((n : String) (d : FlowDefinition)
        → contains done n ≡ true
        → Maps.get catalog.flows n ≡ some d
        → validate_flow n d catalog.types ≡ [])
    → validate_flows catalog.types is done ≡ []
    → All (λ f. validate_flow f.flow f.definition catalog.types ≡ []) is
unfolding validate_flows
validate_flows-eq-nil catalog [] done declared known = λ h. tt
validate_flows-eq-nil catalog (f ∷ is) done (d, ds) known =
    elim (Bool-cases (contains done f.flow)) [
      | inl old ↦
          rw (validate_flows, old)
            (λ h.
              (known f.flow f.definition old d, validate_flows-eq-nil catalog is done ds known h))
      | inr new ↦
          rw (validate_flows, new)
            (λ h.
              let (here, later) =
                append-eq-nil (validate_flow f.flow f.definition catalog.types) _ h in
              (
                here,
                validate_flows-eq-nil catalog is (Sets.insert done f.flow) ds
                    (λ n e within at. elim (Bool-cases (str_eq f.flow n)) [
                      | inl same ↦
                          let name : f.flow ≡ n = (eq_iff f.flow n).0 same in
                          let at_flow =
                            subst (λ z. Maps.get catalog.flows z ≡ some e) (sym name) at in
                          let definition : f.definition ≡ e = some-injective (sym d ∙ at_flow) in
                          subst (λ z. validate_flow z e catalog.types ≡ []) name
                            (subst (λ z. validate_flow f.flow z catalog.types ≡ []) definition here)
                      | inr other ↦
                          known n e (ground (arith, contains-insert done f.flow n, within)) at
                    ])
                    later,
              ))
    ]

-- A graph that can be run.
pub record IsSound (from_value : Value → Outcome String Predicate) (catalog : CompositionCatalog)
    (request : ResolveRequest) (g : RuntimeGraph) : Type 0 where
  -- The entry is one that the selected flow exposes.
  pub entered :
      (root : FlowDefinition) × (Maps.get catalog.flows request.flow ≡ some root)
      × (contains_key root.entries request.entry ≡ true)
      × (g.entry ≡ endpoint "root" request.entry)
  -- Its bridges are the catalog's, the requested ones are among them, and so is what they require.
  pub declared :
      (x : String) (b : BridgeDefinition)
      → Maps.get g.bridges x ≡ some b
      → Maps.get catalog.bridges x ≡ some b
  pub requested : (x : String) → contains request.bridges x ≡ true → contains_key g.bridges x ≡ true
  pub closed :
      (x y : String) (b : BridgeDefinition)
      → Maps.get g.bridges x ≡ some b
      → contains b.requires y ≡ true
      → contains_key g.bridges y ≡ true
  -- Every alias has an instance, and every instance its flow from the catalog.
  pub lives : Lives g.instances g.aliases
  pub cataloged :
      (i : String) (f : FlowInstance)
      → Maps.get g.instances i ≡ some f
      → Maps.get catalog.flows f.flow ≡ some f.definition
  pub types : g.types ≡ catalog.types
  -- The flow of every instance passes its own checks.
  pub validated :
      (i : String) (f : FlowInstance)
      → Maps.get g.instances i ≡ some f
      → validate_flow f.flow f.definition catalog.types ≡ []
  -- Routes and bindings are well typed, and distinct in what they claim.
  pub routed :
      (k : String) (r : Route)
      → Maps.get g.routes k ≡ some r
      → IsTyped from_value catalog.types g.instances r
  pub distinct :
      (j k name : String) (q r : Route)
      → Maps.get g.routes j ≡ some q
      → Maps.get g.routes k ≡ some r
      → Offers from_value catalog.types g.instances q name
      → Offers from_value catalog.types g.instances r name
      → q.from.instance_name ≡ r.from.instance_name
      → j ≡ k
  pub granted :
      (k : String) (b : ResolvedDataBinding)
      → Maps.get g.data_bindings k ≡ some b
      → IsGranted from_value catalog.types g.instances b
  pub single :
      (j k : String) (b c : ResolvedDataBinding)
      → Maps.get g.data_bindings j ≡ some b
      → Maps.get g.data_bindings k ≡ some c
      → b.to ≡ c.to
      → j ≡ k

pub conclude-eq-ok : (g h : RuntimeGraph) (es : Errors) → conclude g es ≡ ok h → (es ≡ []) × (g ≡ h)
conclude-eq-ok g h [] e = (refl, cc)
conclude-eq-ok g h (d ∷ ds) e = cc
