-- ===== src/Compiler/Resolve/Total.antt =====
-- The loops of `resolve` end without a panic.
use zedflow.Base.{
  String, ◌≡◌, refl, sym, ◌∙◌, subst, true, Option, none, some, List, [], ◌∷◌, ◌++◌, arith, str_eq,
  eq_iff, is_some, contains, inl, inr, Bool-cases, append-eq-nil,
}
use zedflow.Base.Panic.{fold_each}
use zedflow.Base.Outcome.{Outcome}
use zedflow.Base.Maps
use zedflow.Base.Maps.{Map, contains_key, keys, values, get-single, get-single-same}
use zedflow.Base.Sets.{Set, contains-insert}
use zedflow.Json.{Value}
use zedflow.Flows.Predicate.{Predicate}
use zedflow.Flows.Composition.{
  FlowDefinition, FlowImport, BridgeDefinition, CompositionCatalog, ResolveRequest,
}
use zedflow.Compiler.Resolve.{FlowInstance, Errors, each}
use zedflow.Compiler.Resolve.Bridges.{Deps}
use zedflow.Compiler.Resolve.Selection.{Visits, dependencies-Visits}
use zedflow.Compiler.Resolve.Instances.{Resolver}
use zedflow.Compiler.Resolve.Instancing.{IsConsistent}
use zedflow.Compiler.Resolve.Instancing.Ends.{resolve_alias-Resolves}
use zedflow.Compiler.Resolve.Wiring.{Wiring, wire_connection}
use zedflow.Compiler.Resolve.Wiring.Data.{wire_binding}
use zedflow.Compiler.Resolve.Routes.{Keeps-trans, Steps, Lives}
use zedflow.Compiler.Resolve.Routes.Connections.{wire_connection-Steps}
use zedflow.Compiler.Resolve.Routes.Bindings.{wire_binding-Steps}
use zedflow.Compiler.Resolve.Plan.{
  walk_fuel, selected, select_bridge, add_import, add_imports, start, resolve_step, wire_bridge,
}

-- The walks from the selected bridges.
pub select_bridge-Visits :
    (bridges : Map BridgeDefinition) (id : String) (s : Deps)
    → s.visiting ≡ []
    → Visits bridges (select_bridge bridges id s) id s
unfolding select_bridge
select_bridge-Visits bridges id s empty =
    let (t, walked, g, found) =
      dependencies-Visits bridges walk_fuel id (record s { visiting = [] }) (omega arith)
        (omega arith) in
    (
      t,
      walked,
      record {
        visiting = g.visiting ∙ sym empty;
        errors = g.errors;
        active = g.active;
        declared = g.declared;
        closed = g.closed;
      },
      found,
    )

pub contains-selected :
    (ids : List String) (y : String) → contains (selected ids) y ≡ contains ids y
contains-selected [] y = refl
contains-selected (id ∷ ids) y =
    contains-insert (selected ids) id y ∙ ground (arith, contains-selected ids y)

-- Lookups of declared bridges.
abbrev pub AllDeclared : Map BridgeDefinition → Set → Type 0
AllDeclared bridges ids =
    (x : String) → contains ids x ≡ true → (b : BridgeDefinition) × (Maps.get bridges x ≡ some b)

pub fold-total :
    {S : Type 0} (bridges : Map BridgeDefinition) (step : String → S → Option S)
    (P : S → S → Type 0)
    → ((s : S) → P s s)
    → ((s t u : S) → P s t → P t u → P s u)
    → ((id : String) (b : BridgeDefinition) (s : S)
        → Maps.get bridges id ≡ some b
        → (t : S) × (step id s ≡ some t) × P s t)
    → (ids : List String) → AllDeclared bridges ids
    → (s : S) → (t : S) × (fold_each step ids s ≡ some t) × P s t
fold-total bridges step P same trans each [] declared s = (s, refl, same s)
fold-total bridges step P same trans each (id ∷ ids) declared s =
    let (b, found) = declared id (ground (arith, eq_iff id id)) in
    let (t, stepped, p) = each id b s found in
    let (u, rest, q) =
      fold-total bridges step P same trans each ids (λ x h. declared x (ground (arith, h))) t in
    (u, rw stepped rest, trans s t u p q)

pub add_imports-errors :
    (bridge : String) (m : Map FlowImport) (s : Map FlowImport × Errors)
    → (add_imports bridge m s).1 ≡ []
    → s.1 ≡ []
unfolding add_import
add_imports-errors bridge [] s h = h
add_imports-errors bridge ((alias, import) ∷ m) (imports, errors) h =
    let before = add_imports-errors bridge m _ h in
    (append-eq-nil errors _ (append-eq-nil (errors ++ _) _ before).0).0

pub start-IsConsistent :
    (catalog : CompositionCatalog) (imports : Map FlowImport) (request : ResolveRequest)
    (root : FlowDefinition) (errors : Errors)
    → Maps.get catalog.flows request.flow ≡ some root
    → IsConsistent catalog imports (start request root errors)
start-IsConsistent catalog imports request root errors declared =
    let main : FlowInstance = record { flow = request.flow; definition = root } in
    record {
      lives = λ a i h.
          let (_, same) = get-single "root" a "root" i h in
          (
            main,
            subst (λ z. Maps.get (("root", main) ∷ []) z ≡ some main) same
                (get-single-same "root" main),
          );
      own = λ i f h.
          subst (λ z. Maps.get (("root", "root") ∷ []) z ≡ some z) (get-single "root" i main f h).0
            (get-single-same "root" "root");
      cataloged = (declared, tt);
      agrees =
          λ a i m f other imported h at. absurd (other (sym (get-single "root" a "root" i h).0));
    }

some-of : (o : Option String) → is_some o ≡ true → (i : String) × (o ≡ some i)
some-of none h = cc
some-of (some i) h = (i, refl)

pub resolve_step-fold :
    (catalog : CompositionCatalog) (imports : Map FlowImport) (ids : List String) (r : Resolver)
    → IsConsistent catalog imports r
    → r.visiting ≡ []
    → (t : Resolver) × (fold_each (resolve_step catalog imports) ids r ≡ some t)
      × IsConsistent catalog imports t
      × (t.errors ≡ [] → r.errors ≡ [])
      × ((a i : String) → Maps.get r.aliases a ≡ some i → Maps.get t.aliases a ≡ some i)
      × (t.errors ≡ []
          → (y : String) → contains ids y ≡ true
          → is_some (Maps.get t.aliases y) ≡ true)
unfolding resolve_step
resolve_step-fold catalog imports [] r v empty = (r, refl, v, λ h. h, λ a i h. h, λ h y c. cc)
resolve_step-fold catalog imports (id ∷ ids) r v empty =
    let (o, s, found, e, w, named, clean) =
      resolve_alias-Resolves catalog imports walk_fuel id r v (rw empty (omega arith))
        (rw empty (omega arith)) in
    let (t, rest, x, kept, grown, all) =
      resolve_step-fold catalog imports ids s w (e.visiting ∙ empty) in
    (
      t,
      rw found rest,
      x,
      λ h. e.errors (kept h),
      λ a i h. grown a i (e.aliases a i h),
      λ h y c. elim (Bool-cases (str_eq id y)) [
        | inl same ↦
            let (i, at) = some-of o (clean (kept h)) in
            let known = grown id i (named i at) in
            subst (λ z. is_some (Maps.get t.aliases z) ≡ true) ((eq_iff id y).0 same)
              (rw known refl)
        | inr other ↦ all h y (ground arith)
      ],
    )

module _ (from_value : Value → Outcome String Predicate) (catalog : CompositionCatalog)
    (instances : Map FlowInstance) (aliases : Map String) (lives : Lives instances aliases) where
  pub fold-Steps :
      {A : Type 0} (step : A → Wiring → Option Wiring)
      → ((a : A) (s : Wiring) → Steps from_value catalog.types instances s (step a s))
      → (xs : List A) (s : Wiring)
      → Steps from_value catalog.types instances s (fold_each step xs s)
  fold-Steps step each [] s = (s, refl, λ h. (h, λ w. w))
  fold-Steps step each (x ∷ xs) s =
      let (t, stepped, k) = each x s in
      let (u, rest, l) = fold-Steps step each xs t in
      (u, rw stepped rest, Keeps-trans from_value catalog.types instances s t u k l)

  pub wire_bridge-Steps :
      (id : String) (b : BridgeDefinition) (s : Wiring)
      → Maps.get catalog.bridges id ≡ some b
      → Steps from_value catalog.types instances s
          (wire_bridge from_value catalog instances aliases id s)
  unfolding wire_bridge
  wire_bridge-Steps id b s found =
      let (t, routed, k) =
        fold-Steps (wire_connection from_value catalog.types id instances aliases)
          (wire_connection-Steps from_value catalog.types instances id aliases lives) b.connections
          s in
      let (u, bound, l) =
        fold-Steps (wire_binding catalog.types id instances aliases)
          (wire_binding-Steps from_value catalog.types instances id aliases lives) b.bindings t in
      (u, rw (found, routed) bound, Keeps-trans from_value catalog.types instances s t u k l)
