-- ===== src/Compiler/Resolve/Sound.antt =====
-- `resolve` ends without a panic on every catalog and request, and a graph that it gives is sound.
use zedflow.Base.{
  String, ◌≡◌, refl, sym, ap, ◌∙◌, subst, true, false, not, Option, none, some, [], ◌++◌, arith,
  contains, inl, inr, Bool-cases, append-eq-nil,
}
use zedflow.Base.Panic.{◌>>=◌, fold_each}
use zedflow.Base.Outcome.{Outcome, ok}
use zedflow.Base.Maps
use zedflow.Base.Maps.{
  All-get, Map, contains_key, keys, values, get-insert-other, get-insert-same, get-insert-cases,
}
use zedflow.Base.Sets.{Set}
use zedflow.Json.{Value}
use zedflow.Flows.Predicate.{Predicate}
use zedflow.Flows.Composition.{
  FlowDefinition, FlowImport, BridgeDefinition, CompositionCatalog, ResolveRequest,
}
use zedflow.Compiler.Resolve.{validate_flow, FlowInstance, RuntimeGraph, Errors, report}
use zedflow.Compiler.Resolve.Bridges.{Deps}
use zedflow.Compiler.Resolve.Selection.{Declared, Closed, fold-Visits}
use zedflow.Compiler.Resolve.Instances.{Resolver}
use zedflow.Compiler.Resolve.Instancing.{Cataloged, IsConsistent}
use zedflow.Compiler.Resolve.Wiring.{Wiring}
use zedflow.Compiler.Resolve.Routes.{IsWired, Keeps, Keeps-trans, Steps, Lives, last-report}
use zedflow.Compiler.Resolve.Total.{
  AllDeclared, select_bridge-Visits, contains-selected, fold-total, add_imports-errors,
  start-IsConsistent, resolve_step-fold, wire_bridge-Steps,
}
use zedflow.Compiler.Resolve.Plan.{
  registry_errors, selected, select_bridge, add_imports, import_bridge, start, validate_flows,
  wire_bridge, assemble, resolve_root, resolve,
}
use zedflow.Compiler.Resolve.Graph.{
  IsSound, copy_bridge-fold, conclude-eq-ok, some-injective, validate_flows-eq-nil,
}

module _ (from_value : Value → Outcome String Predicate) (catalog : CompositionCatalog)
    (request : ResolveRequest) where
  abbrev Sound : Option (Outcome Errors RuntimeGraph) → Type 0
  Sound o =
      (answer : Outcome Errors RuntimeGraph) × (o ≡ some answer)
      × ((g : RuntimeGraph) → answer ≡ ok g → IsSound from_value catalog request g)

  abbrev empty_wiring : Errors → Wiring
  empty_wiring es = record { errors = es; routes = []; data_bindings = []; bound = []; tools = [] }

  empty-IsWired :
      (instances : Map FlowInstance) (es : Errors)
      → IsWired from_value catalog.types instances (empty_wiring es)
  unfolding Maps.get
  empty-IsWired instances es = record {
    routed = λ k r h. cc;
    offered = λ k n r h. cc;
    distinct = λ j k n q r h. cc;
    bound = λ k b h. cc;
    single = λ j k b c h. cc;
  }

  -- The loop over the imports keeps the errors that it starts from.
  gather-total :
      (ids : Set) (errors : Errors)
      → AllDeclared catalog.bridges ids
      → (t : Map FlowImport × Errors) × (fold_each (import_bridge catalog.bridges) ids ([], errors)
          ≡ some t)
        × (t.1 ≡ [] → errors ≡ [])
  unfolding import_bridge
  gather-total ids errors declared =
      fold-total catalog.bridges (import_bridge catalog.bridges) (λ s t. t.1 ≡ [] → s.1 ≡ [])
        (λ s h. h) (λ s t u f g h. f (g h))
        (λ id b s at. (
          add_imports id b.imports s,
          ap (λ o. o >>= λ bridge. some (add_imports id bridge.imports s)) at,
          add_imports-errors id b.imports s,
        ))
        ids declared ([], errors)

  wire_bridges-Steps :
      (instances : Map FlowInstance) (aliases : Map String) (ids : Set) (s : Wiring)
      → Lives instances aliases
      → AllDeclared catalog.bridges ids
      → Steps from_value catalog.types instances s
          (fold_each (wire_bridge from_value catalog instances aliases) ids s)
  wire_bridges-Steps instances aliases ids s lives declared =
      fold-total catalog.bridges (wire_bridge from_value catalog instances aliases)
        (Keeps from_value catalog.types instances) (λ t h. (h, λ w. w))
        (Keeps-trans from_value catalog.types instances)
        (λ id b t at. wire_bridge-Steps from_value catalog instances aliases lives id b t at) ids
        declared s

  -- What the phases before it have shown of the graph that `assemble` gives.
  assemble-IsSound :
      (deps : Deps) (root : FlowDefinition) (bridges : Map BridgeDefinition)
      (imports : Map FlowImport) (r : Resolver) (wired : Wiring) (g : RuntimeGraph)
      → Declared catalog.bridges deps.active
      → (deps.errors ≡ [] → Closed catalog.bridges deps.active)
      → (deps.errors ≡ []
          → (x : String) → contains request.bridges x ≡ true
          → contains deps.active x ≡ true)
      → ((x : String)
          → contains deps.active x ≡ true
          → Maps.get bridges x ≡ Maps.get catalog.bridges x)
      → ((x : String) → contains deps.active x ≡ false → Maps.get bridges x ≡ none)
      → Maps.get catalog.flows request.flow ≡ some root
      → (wired.errors ≡ []
          → (deps.errors ≡ [])
            × (contains_key root.entries request.entry ≡ true)
            × IsWired from_value catalog.types r.instances wired
            × (validate_flows catalog.types (values r.instances) [] ≡ []))
      → IsConsistent catalog imports r
      → assemble catalog request bridges r wired ≡ ok g
      → IsSound from_value catalog request g
  unfolding assemble
  assemble-IsSound deps root bridges imports r wired g declared closed chosen same others found ends
        v h =
      let (clean, made) = conclude-eq-ok _ g _ h in
      let (quiet, exposed, w, checked) = ends (append-eq-nil wired.errors _ clean).0 in
      let inside : (x : String) (b : BridgeDefinition)
          → Maps.get bridges x ≡ some b
          → contains deps.active x ≡ true =
        λ x b at. elim (Bool-cases (contains deps.active x)) [
          | inl e ↦ e
          | inr e ↦ absurd (cc (others x e))
        ] in
      let present : (x : String) → contains deps.active x ≡ true → contains_key bridges x ≡ true =
        λ x e. let (b, at) = declared x e in rw (same x e, at) refl in
      subst (IsSound from_value catalog request) made (record {
        entered = (root, found, exposed, refl);
        declared = λ x b at. sym (same x (inside x b at)) ∙ at;
        requested = λ x e. present x (chosen quiet x e);
        closed = λ x y b at needed.
            let e = inside x b at in present y (closed quiet x y b e (sym (same x e) ∙ at) needed);
        lives = v.lives;
        cataloged = λ i f. All-get (Cataloged catalog imports) r.instances i f v.cataloged;
        validated = λ i f.
            All-get (λ f. validate_flow f.flow f.definition catalog.types ≡ []) r.instances i f
              (validate_flows-eq-nil catalog (values r.instances) [] v.cataloged (λ n d h. cc)
                checked);
        types = refl;
        routed = w.routed;
        distinct = w.distinct;
        granted = λ k b at. (w.bound k b at).0;
        single = w.single;
      })

  resolve_root-Sound :
      (deps : Deps)
      → Declared catalog.bridges deps.active
      → (deps.errors ≡ [] → Closed catalog.bridges deps.active)
      → (deps.errors ≡ []
          → (x : String) → contains request.bridges x ≡ true
          → contains deps.active x ≡ true)
      → (o : Option FlowDefinition) → Maps.get catalog.flows request.flow ≡ o
      → Sound (resolve_root from_value catalog request deps o)
  unfolding resolve_root Maps.get
  resolve_root-Sound deps declared closed chosen none found = (_, refl, λ g h. cc)
  resolve_root-Sound deps declared closed chosen (some root) found =
      let known = contains_key root.entries request.entry in
      let entry =
        report (not known) "unknown_entry" "request.entry"
          "Selected entry is not exposed by the root flow" in
      let (gathered, imported, early) = gather-total deps.active (deps.errors ++ entry) declared in
      let (r, stepped, v, kept, _, _) =
        resolve_step-fold catalog (gathered.0) (keys (gathered.0)) (start request root (gathered.1))
          (start-IsConsistent catalog (gathered.0) request root (gathered.1) found) refl in
      let (bridges, copied, _, same, others) =
        copy_bridge-fold catalog.bridges deps.active declared [] in
      let es = r.errors ++ validate_flows catalog.types (values r.instances) [] in
      let (wired, bound, keeps) =
        wire_bridges-Steps r.instances r.aliases deps.active (empty_wiring es) v.lives declared in
      let ends : wired.errors ≡ []
          → (deps.errors ≡ [])
            × (known ≡ true)
            × IsWired from_value catalog.types r.instances wired
            × (validate_flows catalog.types (values r.instances) [] ≡ []) =
        λ clean.
          let (begun, w) = keeps clean in
          let (before, exposed) =
            last-report deps.errors (not known) _ _ _
              (early (kept (append-eq-nil r.errors _ begun).0)) in
          (
            before,
            ground (arith, exposed),
            w (empty-IsWired r.instances es),
            (append-eq-nil r.errors _ begun).1,
          ) in
      (
        assemble catalog request bridges r wired,
        rw (imported, stepped, copied, bound) refl,
        λ g h.
            assemble-IsSound deps root bridges (gathered.0) r wired g declared closed chosen same
              others found ends v h,
      )

  resolve-Sound : Sound (resolve from_value catalog request)
  unfolding resolve
  resolve-Sound =
      let first : Deps = record {
        visiting = [];
        active = [];
        errors = registry_errors catalog.types;
      } in
      let (deps, walked, g, all) =
        fold-Visits catalog.bridges (select_bridge catalog.bridges) []
          (select_bridge-Visits catalog.bridges) (selected request.bridges) first refl in
      let (answer, resolved, sound) =
        resolve_root-Sound deps (g.declared (λ x h. cc)) (λ clean. g.closed clean (λ x y b h. cc))
          (λ clean x h. all clean x (contains-selected request.bridges x ∙ h))
          (Maps.get catalog.flows request.flow) refl in
      (answer, rw walked resolved, sound)

  -- On every catalog and request, cyclic and deep ones included, `resolve` ends: it indexes no map
  -- at a missing key, and its recursions end within their bounds.
  pub resolve_total :
      (answer : Outcome Errors RuntimeGraph) × (resolve from_value catalog request ≡ some answer)
  resolve_total = let (answer, resolved, _) = resolve-Sound in (answer, resolved)

  module _ (g : RuntimeGraph) (resolved : resolve from_value catalog request ≡ some (ok g)) where
    -- A graph that `resolve` gives enters the selected flow at an entry that it exposes; has the
    -- catalog's bridges, the requested ones and all that they require; an instance for every alias
    -- and for every instance the catalog's flow, which passes its own checks; routes from an existing branch that permits them to
    -- an existing entry of compatible types, no two of them with one tool name on one instance; and
    -- data bindings of compatible types that their permissions allow, one at most per requirement.
    pub resolve-IsSound : IsSound from_value catalog request g
    resolve-IsSound =
        let (answer, same, sound) = resolve-Sound in sound g (some-injective (sym same ∙ resolved))
