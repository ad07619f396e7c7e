-- ===== src/Compiler/Resolve/Routes/Bindings.antt =====
-- The loop of `resolve` over the data bindings of a bridge.
use zedflow.Base.{
  String, ◌<>◌, ◌≡◌, refl, sym, ap, ◌∙◌, subst, true, false, not, ◌&&◌, ◌||◌, Option, none, some,
  arith, eq_iff, inl, inr, Option-cases,
}
use zedflow.Base.Outcome.{Outcome}
use zedflow.Base.Maps
use zedflow.Base.Maps.{Map, get-insert-cases}
use zedflow.Json.{Value}
use zedflow.Core.Types.{TypeRegistry, compatible}
use zedflow.Flows.Predicate.{Predicate}
use zedflow.Flows.Composition.{includes, DataExposure, DataRequirement, Endpoint, DataBinding}
use zedflow.Compiler.Resolve.{
  FlowInstance, ResolvedDataBinding, Errors, name_errors, permission_errors,
}
use zedflow.Compiler.Resolve.Instances.{resolve_endpoint}
use zedflow.Compiler.Resolve.Wiring.{has_pair, add_pair, Wiring, add, same_permissions, found_in}
use zedflow.Compiler.Resolve.Wiring.Data.{
  wire_data, bind_target, bind_source, bind_ends, wire_binding,
}
use zedflow.Compiler.Resolve.Routes.{
  last-report, IsGranted, IsWired, Keeps, Keeps-trans, add-Keeps, Steps, has_pair-add_pair, Lives,
  endpoint-Lives,
}

module _ (from_value : Value → Outcome String Predicate) (types : TypeRegistry)
    (instances : Map FlowInstance) (bridge_id : String) where
  -- A granted binding of a requirement that was not bound keeps the bindings single.
  insert_binding-IsWired :
      (k : String) (r : ResolvedDataBinding) (s : Wiring) (es : Errors)
      → IsWired from_value types instances s
      → IsGranted from_value types instances r
      → has_pair s.bound r.to.instance_name r.to.port ≡ false
      → IsWired from_value types instances (record s {
        errors = es;
        bound = add_pair s.bound r.to.instance_name r.to.port;
        data_bindings = Maps.insert s.data_bindings k r;
      })
  insert_binding-IsWired k r s es w granted free =
      let clash : (j : String) (b : ResolvedDataBinding)
          → Maps.get s.data_bindings j ≡ some b
          → r.to ≡ b.to
          → ⊥ =
        λ j b h same. cc (
          (w.bound j b h).1,
          free,
          ap (λ (e : Endpoint). has_pair s.bound e.instance_name e.port) same,
        ) in
      record {
        routed = w.routed;
        offered = w.offered;
        distinct = w.distinct;
        bound = λ j b h. elim (get-insert-cases s.data_bindings k j r b h) [
          | inl (_, same) ↦ (
            subst (IsGranted from_value types instances) same granted,
            subst
                (λ z.
                  has_pair (add_pair s.bound r.to.instance_name r.to.port) z.to.instance_name
                    z.to.port
                  ≡ true)
                same
                (has_pair-add_pair s.bound r.to.instance_name r.to.port r.to.instance_name r.to.port
                  ∙ ground (
                    arith,
                    eq_iff r.to.instance_name r.to.instance_name,
                    eq_iff r.to.port r.to.port,
                  )),
          )
          | inr (_, old) ↦
              let (fine, taken) = w.bound j b old in
              (
                fine,
                has_pair-add_pair s.bound r.to.instance_name r.to.port b.to.instance_name b.to.port
                    ∙ ground (arith, taken),
              )
        ];
        single = λ i j b c h h' to. elim (get-insert-cases s.data_bindings k i r b h) [
          | inl (here, same) ↦ elim (get-insert-cases s.data_bindings k j r c h') [
            | inl (there, _) ↦ sym here ∙ there
            | inr (_, old) ↦ absurd (clash j c old (ap (λ z. z.to) same ∙ to))
          ]
          | inr (_, old) ↦ elim (get-insert-cases s.data_bindings k j r c h') [
            | inl (_, same) ↦ absurd (clash i b old (ap (λ z. z.to) same ∙ sym to))
            | inr (_, older) ↦ w.single i j b c old older to
          ]
        ];
      }

  -- A round that reports nothing adds a binding that is granted.
  wire_data-Keeps :
      (id : String) (b : DataBinding) (path : String) (from to : Endpoint) (source : DataExposure)
      (target : DataRequirement) (s : Wiring) (f g : FlowInstance)
      → found_in instances from ≡ some f
      → Maps.get f.definition.exposed from.port ≡ some source
      → found_in instances to ≡ some g
      → Maps.get g.definition.requires to.port ≡ some target
      → Keeps from_value types instances s
          (wire_data types bridge_id id b path from to source target s)
  unfolding wire_data
  wire_data-Keeps id b path from to source target s f g at_f at_source at_g at_target h =
      let out = compatible source.data_type target.data_type types in
      let back = compatible target.data_type source.data_type types in
      let granted = includes source.permissions b.permissions in
      let asked = same_permissions b.permissions target.permissions in
      let (third, typed) =
        last-report _ ((b.permissions.read && not out) || (b.permissions.write && not back)) _ _ _
          h in
      let (second, permitted) = last-report _ (not granted || not asked) _ _ _ third in
      let (start, free) =
        last-report s.errors (has_pair s.bound to.instance_name to.port) _ _ _ second in
      (
        start,
        λ w.
            insert_binding-IsWired (bridge_id <> "/" <> id) _ s _ w
              (record {
                source = source;
                target = target;
                leaves = (f, at_f, at_source);
                enters = (g, at_g, at_target);
                carries = refl;
                granted = ground (arith, permitted);
                asked = ground (arith, permitted);
                reads = λ k. ground (arith, typed, k);
                writes = λ k. ground (arith, typed, k);
              })
              free,
      )

  module _ (aliases : Map String) (lives : Lives instances aliases) where
    bind_ends-Steps :
        (id : String) (b : DataBinding) (path : String) (o p : Option Endpoint) (s : Wiring)
        → ((e : Endpoint) → o ≡ some e → (f : FlowInstance) × (found_in instances e ≡ some f))
        → ((e : Endpoint) → p ≡ some e → (f : FlowInstance) × (found_in instances e ≡ some f))
        → Steps from_value types instances s (bind_ends types bridge_id instances id b path o p s)
    unfolding bind_ends bind_source bind_target
    bind_ends-Steps id b path none p s at_from at_to = (s, refl, λ h. (h, λ w. w))
    bind_ends-Steps id b path (some from) none s at_from at_to = (s, refl, λ h. (h, λ w. w))
    bind_ends-Steps id b path (some from) (some to) s at_from at_to =
        let (f, at_f) = at_from from refl in
        let (g, at_g) = at_to to refl in
        rw at_f (elim (Option-cases (Maps.get f.definition.exposed from.port)) [
          | inl absent ↦ rw absent (_, refl, add-Keeps from_value types instances _ s)
          | inr (source, at_source) ↦
              rw (at_source, at_g)
                (elim (Option-cases (Maps.get g.definition.requires to.port)) [
                  | inl absent ↦ rw absent (_, refl, add-Keeps from_value types instances _ s)
                  | inr (target, at_target) ↦ rw at_target (
                    _,
                    refl,
                    wire_data-Keeps id b path from to source target s f g at_f at_source at_g
                        at_target,
                  )
                ])
        ])

    -- One round ends without a panic, and if it reports nothing it keeps the graph well typed.
    pub wire_binding-Steps :
        (entry : String × DataBinding) (s : Wiring)
        → Steps from_value types instances s
            (wire_binding types bridge_id instances aliases entry s)
    unfolding wire_binding
    wire_binding-Steps (id, b) s =
        let path = "bridges." <> bridge_id <> ".bindings." <> id in
        let from = resolve_endpoint bridge_id b.from aliases (path <> ".from") in
        let to = resolve_endpoint bridge_id b.to aliases (path <> ".to") in
        let named = add (name_errors id path) s in
        let allowed = add (permission_errors b.permissions path) named in
        let sent = add (from.1) allowed in
        let (t, wired, k) =
          bind_ends-Steps id b path (from.0) (to.0) (add (to.1) sent)
            (λ e h. endpoint-Lives instances aliases lives bridge_id b.from e (path <> ".from") h)
            (λ e h. endpoint-Lives instances aliases lives bridge_id b.to e (path <> ".to") h) in
        let adds = add-Keeps from_value types instances in
        let then = Keeps-trans from_value types instances in
        (
          t,
          wired,
          then s (add (to.1) sent) t
              (then s sent (add (to.1) sent)
                (then s allowed sent
                  (then s named allowed (adds (name_errors id path) s)
                    (adds (permission_errors b.permissions path) named))
                  (adds (from.1) allowed))
                (adds (to.1) sent))
              k,
        )
