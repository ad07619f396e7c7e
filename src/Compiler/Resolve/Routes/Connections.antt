-- ===== src/Compiler/Resolve/Routes/Connections.antt =====
-- The loop of `resolve` over the connections of a bridge.
use zedflow.Compiler.Resolve.Routes.Claiming.{Claims, wire_tool-Claims}
use zedflow.Base.{
  String, ◌<>◌, ◌≡◌, refl, sym, ap, ◌∙◌, subst, true, not, ◌&&◌, Option, none, some, [], arith, any,
  inl, inr, Option-cases, append-eq-nil,
}
use zedflow.Base.Outcome.{Outcome, ok, Outcome-cases}
use zedflow.Base.Maps
use zedflow.Base.Maps.{Map, get-insert-cases}
use zedflow.Json.{Value}
use zedflow.Core.Types.{TypeRegistry, compatible}
use zedflow.Flows.Predicate.{Predicate, parse_predicate}
use zedflow.Flows.Composition.{
  PortContract, InvocationKind, tool, node, condition, context, BranchPoint, Endpoint, Connection,
}
use zedflow.Compiler.Resolve.{FlowInstance, Route, Errors, name_errors}
use zedflow.Compiler.Resolve.Instances.{resolve_endpoint}
use zedflow.Compiler.Resolve.Wiring.{
  has_pair, Wiring, add, kind_eq, awaits, none_of, output_fits, wire_tool, route_errors, found_in,
  condition_errors, wire_route, wire_target, wire_source, wire_ends, wire_connection,
}
use zedflow.Compiler.Resolve.Routes.{
  report-eq-nil, last-report, IsTyped, Offers, IsWired, Keeps, Keeps-trans, add-Keeps, Steps,
  endpoint-Lives, Lives,
}

module _ (from_value : Value → Outcome String Predicate) (types : TypeRegistry)
    (instances : Map FlowInstance) (bridge_id : String) where
  condition_errors-eq-nil :
      (kind : InvocationKind) (c : Option Value) (path : String)
      → condition_errors from_value kind c path ≡ []
      → kind ≡ condition
      → (v : Value) × (p : Predicate) × (c ≡ some v) × (parse_predicate from_value v ≡ ok p)
  unfolding condition_errors
  condition_errors-eq-nil condition (some v) path =
      elim (Outcome-cases (parse_predicate from_value v)) [
        | inl (p, parsed) ↦ λ _ _. (v, p, refl, parsed)
        | inr (e, failed) ↦ rw (condition_errors, failed) (λ h. cc)
      ]
  condition_errors-eq-nil condition none path = λ h. cc
  condition_errors-eq-nil tool c path = λ h k. cc
  condition_errors-eq-nil node c path = λ h k. cc
  condition_errors-eq-nil context c path = λ h k. cc

  route_errors-eq-nil :
      (c : Connection) (source : BranchPoint) (target : PortContract) (path : String)
      → route_errors types c source target path ≡ []
      → (none_of source.requesters ≡ true → any (kind_eq c.invocation) source.invocations ≡ true)
        × (compatible source.contract.input target.input types ≡ true)
        × (awaits c.mode ≡ true → output_fits types source.contract.output target.output ≡ true)
  unfolding route_errors
  route_errors-eq-nil c source target path h =
      let allowed = any (kind_eq c.invocation) source.invocations in
      let fits = compatible source.contract.input target.input types in
      let (first, given) =
        last-report _
          (awaits c.mode && not (output_fits types source.contract.output target.output)) _ _ _ h in
      let (second, taken) = last-report _ (not fits) _ _ _ first in
      let permitted = report-eq-nil (none_of source.requesters && not allowed) _ _ _ second in
      (λ k. ground (arith, permitted, k), ground (arith, taken), λ k. ground (arith, given, k))

  -- A well-typed route whose tool is new keeps the routes distinct.
  insert_route-IsWired :
      (k : String) (r : Route) (s t : Wiring) (es : Errors)
      → IsWired from_value types instances s
      → IsTyped from_value types instances r
      → Claims r.invocation r.tool_name r.from.instance_name s t
      → IsWired from_value types instances
          (record t { errors = es; routes = Maps.insert t.routes k r })
  insert_route-IsWired k r s t es w typed c =
      let back : (j : String) (q : Route)
          → Maps.get t.routes j ≡ some q
          → Maps.get s.routes j ≡ some q =
        λ j q h. ap (λ m. Maps.get m j) (sym c.routes) ∙ h in
      let clash : (j name : String) (q : Route)
          → Maps.get t.routes j ≡ some q
          → Offers from_value types instances r name
          → Offers from_value types instances q name
          → r.from.instance_name ≡ q.from.instance_name
          → ⊥ =
        λ j name q h (kind, named) o same.
          cc ((c.claimed name kind named).0, w.offered j name q (back j q h) o) in
      record {
        routed = λ j q h. elim (get-insert-cases t.routes k j r q h) [
          | inl (_, same) ↦ subst (IsTyped from_value types instances) same typed
          | inr (_, old) ↦ w.routed j q (back j q old)
        ];
        offered = λ j name q h o. elim (get-insert-cases t.routes k j r q h) [
          | inl (_, same) ↦
              let (kind, named) =
                subst (λ z. Offers from_value types instances z name) (sym same) o in
              subst (λ z. has_pair t.tools z.from.instance_name name ≡ true) same
                (c.claimed name kind named).1
          | inr (_, old) ↦ c.grown _ _ (w.offered j name q (back j q old) o)
        ];
        distinct = λ i j name p q h h' o o' from. elim (get-insert-cases t.routes k i r p h) [
          | inl (here, same) ↦ elim (get-insert-cases t.routes k j r q h') [
            | inl (there, _) ↦ sym here ∙ there
            | inr (_, old) ↦ absurd (
                clash j name q old
                  (subst (λ z. Offers from_value types instances z name) (sym same) o) o'
                  (ap (λ z. z.from.instance_name) same ∙ from))
          ]
          | inr (_, old) ↦ elim (get-insert-cases t.routes k j r q h') [
            | inl (_, same) ↦ absurd (
                clash i name p old
                  (subst (λ z. Offers from_value types instances z name) (sym same) o') o
                  (ap (λ z. z.from.instance_name) same ∙ sym from))
            | inr (_, older) ↦ w.distinct i j name p q (back i p old) (back j q older) o o' from
          ]
        ];
        bound = λ j b h.
            let (granted, taken) = w.bound j b (ap (λ m. Maps.get m j) (sym c.data_bindings) ∙ h) in
            (granted, ap (λ z. has_pair z b.to.instance_name b.to.port) c.bound ∙ taken);
        single = λ i j b d h h' to.
            w.single i j b d (ap (λ m. Maps.get m i) (sym c.data_bindings) ∙ h)
              (ap (λ m. Maps.get m j) (sym c.data_bindings) ∙ h') to;
      }

  -- A round that reports nothing adds a well-typed route.
  wire_route-Keeps :
      (id : String) (c : Connection) (path : String) (from to : Endpoint) (source : BranchPoint)
      (target : PortContract) (s : Wiring) (f g : FlowInstance)
      → found_in instances from ≡ some f
      → Maps.get f.definition.branches from.port ≡ some source
      → found_in instances to ≡ some g
      → Maps.get g.definition.entries to.port ≡ some target
      → Keeps from_value types instances s
          (wire_route from_value types bridge_id id c path from to source target s)
  unfolding wire_route
  wire_route-Keeps id c path from to source target s f g at_f at_source at_g at_target h =
      let typed = add (route_errors types c source target path) s in
      let tooled = wire_tool c.invocation c.tool_name from.instance_name path typed in
      let (ended, tested) = append-eq-nil tooled.errors _ h in
      let claims = wire_tool-Claims c.invocation c.tool_name from.instance_name path typed ended in
      let (start, reported) = append-eq-nil s.errors _ claims.start in
      let (permitted, takes, gives) = route_errors-eq-nil c source target path reported in
      (
        start,
        λ w.
            insert_route-IsWired (bridge_id <> "/" <> id) _ typed tooled _
              ((add-Keeps from_value types instances (route_errors types c source target path) s
                  claims.start).1
                w)
              (record {
                source = source;
                target = target;
                leaves = (f, at_f, at_source);
                enters = (g, at_g, at_target);
                carries = (refl, refl);
                takes = takes;
                gives = gives;
                permitted = permitted;
                tested = condition_errors-eq-nil c.invocation c.condition path tested;
              })
              claims,
      )

  module _ (aliases : Map String) (lives : Lives instances aliases) where
    wire_ends-Steps :
        (id : String) (c : Connection) (path : String) (o p : Option Endpoint) (s : Wiring)
        → ((e : Endpoint) → o ≡ some e → (f : FlowInstance) × (found_in instances e ≡ some f))
        → ((e : Endpoint) → p ≡ some e → (f : FlowInstance) × (found_in instances e ≡ some f))
        → Steps from_value types instances s
            (wire_ends from_value types bridge_id instances id c path o p s)
    unfolding wire_ends wire_source wire_target
    wire_ends-Steps id c path none p s at_from at_to = (s, refl, λ h. (h, λ w. w))
    wire_ends-Steps id c path (some from) none s at_from at_to = (s, refl, λ h. (h, λ w. w))
    wire_ends-Steps id c path (some from) (some to) s at_from at_to =
        let (f, at_f) = at_from from refl in
        let (g, at_g) = at_to to refl in
        rw at_f (elim (Option-cases (Maps.get f.definition.branches from.port)) [
          | inl absent ↦ rw absent (_, refl, add-Keeps from_value types instances _ s)
          | inr (source, at_source) ↦
              rw (at_source, at_g)
                (elim (Option-cases (Maps.get g.definition.entries to.port)) [
                  | inl absent ↦ rw absent (_, refl, add-Keeps from_value types instances _ s)
                  | inr (target, at_target) ↦ rw at_target (
                    _,
                    refl,
                    wire_route-Keeps id c path from to source target s f g at_f at_source at_g
                        at_target,
                  )
                ])
        ])

    -- One round ends without a panic, and if it reports nothing it keeps the graph well typed.
    pub wire_connection-Steps :
        (entry : String × Connection) (s : Wiring)
        → Steps from_value types instances s
            (wire_connection from_value types bridge_id instances aliases entry s)
    unfolding wire_connection
    wire_connection-Steps (id, c) s =
        let path = "bridges." <> bridge_id <> ".connections." <> id in
        let from = resolve_endpoint bridge_id c.from aliases (path <> ".from") in
        let to = resolve_endpoint bridge_id c.to aliases (path <> ".to") in
        let named = add (name_errors id path) s in
        let sent = add (from.1) named in
        let (t, wired, k) =
          wire_ends-Steps id c path (from.0) (to.0) (add (to.1) sent)
            (λ e h. endpoint-Lives instances aliases lives bridge_id c.from e (path <> ".from") h)
            (λ e h. endpoint-Lives instances aliases lives bridge_id c.to e (path <> ".to") h) in
        (
          t,
          wired,
          Keeps-trans from_value types instances s (add (to.1) sent) t
              (Keeps-trans from_value types instances s sent (add (to.1) sent)
                (Keeps-trans from_value types instances s named sent
                  (add-Keeps from_value types instances (name_errors id path) s)
                  (add-Keeps from_value types instances (from.1) named))
                (add-Keeps from_value types instances (to.1) sent))
              k,
        )
