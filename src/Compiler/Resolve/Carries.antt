-- ===== src/Compiler/Resolve/Carries.antt =====
-- What the routes and the bindings of a resolved graph carry.
use zedflow.Base.{String, ◌≡◌, subst, true, some}
use zedflow.Base.Outcome.{Outcome, ok}
use zedflow.Base.Maps
use zedflow.Base.Maps.{
  All-get, Map, contains_key, keys, values, get-insert-other, get-insert-same, get-insert-cases,
}
use zedflow.Json.{Value}
use zedflow.Core.Types.{DataType, compatible}
use zedflow.Core.Values.{validate_value}
use zedflow.Core.Values.Flow.{validate_value-compatible}
use zedflow.Flows.Predicate.{Predicate}
use zedflow.Flows.Composition.{BranchPoint, DataRequirement, CompositionCatalog, ResolveRequest}
use zedflow.Compiler.Resolve.{FlowInstance, Route, ResolvedDataBinding, RuntimeGraph}
use zedflow.Compiler.Resolve.Plan.{resolve}
use zedflow.Compiler.Resolve.Sound.{resolve-IsSound}

module _ (from_value : Value → Outcome String Predicate) (catalog : CompositionCatalog)
    (request : ResolveRequest) (g : RuntimeGraph)
    (resolved : resolve from_value catalog request ≡ some (ok g)) where
  -- What a branch accepts as its argument, the destination of each of its routes accepts as its
  -- input.
  pub route_value :
      (debug : DataType → String) (k : String) (r : Route) (f : FlowInstance) (source : BranchPoint)
      (v : Value)
      → Maps.get g.routes k ≡ some r
      → Maps.get g.instances r.from.instance_name ≡ some f
      → Maps.get f.definition.branches r.from.port ≡ some source
      → validate_value debug source.contract.input v g.types ≡ some (ok tt)
      → validate_value debug r.input v g.types ≡ some (ok tt)
  route_value debug k r f source v at_k at_f at_source accepted =
      let sound = resolve-IsSound from_value catalog request g resolved in
      let typed = sound.routed k r at_k in
      let (h, at_h, at_branch) = typed.leaves in
      let same_flow : h ≡ f = cc in
      let at_same =
        subst (λ z. Maps.get z.definition.branches r.from.port ≡ some typed.source) same_flow
          at_branch in
      let same_branch : typed.source ≡ source = cc in
      let fits =
        subst (λ z. compatible z.contract.input typed.target.input catalog.types ≡ true) same_branch
          typed.takes in
      rw (sound.types, typed.carries.0)
        (validate_value-compatible debug source.contract.input typed.target.input catalog.types v
          fits
          (subst (λ z. validate_value debug source.contract.input v z ≡ some (ok tt)) sound.types
            accepted))

  -- Through a binding that may write, what conforms to the requirement also conforms to the
  -- exposed dataset that it writes to.
  pub binding_value :
      (debug : DataType → String) (k : String) (b : ResolvedDataBinding) (f : FlowInstance)
      (target : DataRequirement) (v : Value)
      → Maps.get g.data_bindings k ≡ some b
      → b.permissions.write ≡ true
      → Maps.get g.instances b.to.instance_name ≡ some f
      → Maps.get f.definition.requires b.to.port ≡ some target
      → validate_value debug target.data_type v g.types ≡ some (ok tt)
      → validate_value debug b.data_type v g.types ≡ some (ok tt)
  binding_value debug k b f target v at_k writable at_f at_target accepted =
      let sound = resolve-IsSound from_value catalog request g resolved in
      let granted = sound.granted k b at_k in
      let (h, at_h, at_need) = granted.enters in
      let same_flow : h ≡ f = cc in
      let at_same =
        subst (λ z. Maps.get z.definition.requires b.to.port ≡ some granted.target) same_flow
          at_need in
      let same_need : granted.target ≡ target = cc in
      let fits =
        subst (λ z. compatible z.data_type granted.source.data_type catalog.types ≡ true) same_need
          (granted.writes writable) in
      rw (sound.types, granted.carries)
        (validate_value-compatible debug target.data_type granted.source.data_type catalog.types v
          fits
          (subst (λ z. validate_value debug target.data_type v z ≡ some (ok tt)) sound.types
            accepted))
