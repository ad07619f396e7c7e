-- ===== src/Compiler/Resolve/Routes.antt =====
-- The loops of `resolve` over connections and bindings never index a missing instance, and without
-- an error every route and every binding is well typed.
pub mod Connections
pub mod Claiming
pub mod Bindings
use zedflow.Base.{
  String, ◌<>◌, ◌≡◌, refl, sym, ap, ◌∙◌, subst, Bool, true, false, not, ◌&&◌, ◌||◌, Option, none,
  some, List, [], ◌∷◌, ◌++◌, arith, any, is_some, str_eq, eq_iff, if◌then◌else◌, inl, inr,
  Bool-cases, Option-cases, append-eq-nil, and→both, ◌⊎◌,
}
use zedflow.Base.Panic.{◌>>=◌}
use zedflow.Base.Text.{contains_char}
use zedflow.Base.Outcome.{Outcome, ok, err, Outcome-cases}
use zedflow.Base.Maps
use zedflow.Base.Maps.{Map, get-insert-cases}
use zedflow.Json.{Value}
use zedflow.Core.Types.{DataType, TypeRegistry, compatible}
use zedflow.Flows.Predicate.{Predicate, parse_predicate}
use zedflow.Flows.Composition.{
  PortContract, InvocationKind, tool, node, condition, context, BranchPoint, DataPermissions,
  includes, DataExposure, DataRequirement, Endpoint, endpoint, Connection, DataBinding,
}
use zedflow.Compiler.Resolve.{
  FlowInstance, Route, ResolvedDataBinding, Errors, report, name_errors, permission_errors,
}
use zedflow.Compiler.Resolve.Instances.{resolve_endpoint}
use zedflow.Compiler.Resolve.Wiring.{
  Pairs, has_pair, add_pair, Wiring, add, kind_eq, awaits, none_of, same_permissions, output_fits,
  wire_tool, route_errors, found_in, condition_errors, wire_route, wire_target, wire_source,
  wire_ends, wire_connection,
}

pub report-eq-nil :
    (b : Bool) (code path message : String) → report b code path message ≡ [] → b ≡ false
report-eq-nil true code path message h = cc
report-eq-nil false code path message h = refl

-- The last report of a list that is empty.
pub last-report :
    (es : Errors) (b : Bool) (code path message : String)
    → es ++ report b code path message ≡ []
    → (es ≡ []) × (b ≡ false)
last-report es b code path message h =
    let (before, here) = append-eq-nil es _ h in (before, report-eq-nil b _ _ _ here)

module _ (from_value : Value → Outcome String Predicate) (types : TypeRegistry)
    (instances : Map FlowInstance) where
  -- A route between a branch and an entry that both exist, whose types fit.
  pub record IsTyped (r : Route) : Type 0 where
    pub source : BranchPoint
    pub target : PortContract
    pub leaves :
        (f : FlowInstance) × (found_in instances r.from ≡ some f)
        × (Maps.get f.definition.branches r.from.port ≡ some source)
    pub enters :
        (f : FlowInstance) × (found_in instances r.to ≡ some f)
        × (Maps.get f.definition.entries r.to.port ≡ some target)
    pub carries : (r.input ≡ target.input) × (r.output ≡ target.output)
    pub takes : compatible source.contract.input target.input types ≡ true
    pub gives : awaits r.mode ≡ true → output_fits types source.contract.output target.output ≡ true
    pub permitted :
        none_of source.requesters ≡ true → any (kind_eq r.invocation) source.invocations ≡ true
    pub tested :
        r.invocation ≡ condition
        → (v : Value) × (p : Predicate) × (r.condition ≡ some v)
          × (parse_predicate from_value v ≡ ok p)

  abbrev pub Offers : Route → String → Type 0
  Offers r name = (r.invocation ≡ tool) × (r.tool_name ≡ some name)

  -- A data binding whose permissions the exposure grants and the requirement asks for.
  pub record IsGranted (b : ResolvedDataBinding) : Type 0 where
    pub source : DataExposure
    pub target : DataRequirement
    pub leaves :
        (f : FlowInstance) × (found_in instances b.from ≡ some f)
        × (Maps.get f.definition.exposed b.from.port ≡ some source)
    pub enters :
        (f : FlowInstance) × (found_in instances b.to ≡ some f)
        × (Maps.get f.definition.requires b.to.port ≡ some target)
    pub carries : b.data_type ≡ source.data_type
    pub granted : includes source.permissions b.permissions ≡ true
    pub asked : same_permissions b.permissions target.permissions ≡ true
    pub reads :
        b.permissions.read ≡ true → compatible source.data_type target.data_type types ≡ true
    pub writes :
        b.permissions.write ≡ true → compatible target.data_type source.data_type types ≡ true

  -- The two maps of the graph where no error was reported.
  pub record IsWired (s : Wiring) : Type 0 where
    pub routed : (k : String) (r : Route) → Maps.get s.routes k ≡ some r → IsTyped r
    pub offered :
        (k name : String) (r : Route)
        → Maps.get s.routes k ≡ some r
        → Offers r name
        → has_pair s.tools r.from.instance_name name ≡ true
    pub distinct :
        (j k name : String) (q r : Route)
        → Maps.get s.routes j ≡ some q
        → Maps.get s.routes k ≡ some r
        → Offers q name
        → Offers r name
        → q.from.instance_name ≡ r.from.instance_name
        → j ≡ k
    pub bound :
        (k : String) (b : ResolvedDataBinding)
        → Maps.get s.data_bindings k ≡ some b
        → IsGranted b × (has_pair s.bound b.to.instance_name b.to.port ≡ true)
    pub single :
        (j k : String) (b c : ResolvedDataBinding)
        → Maps.get s.data_bindings j ≡ some b
        → Maps.get s.data_bindings k ≡ some c
        → b.to ≡ c.to
        → j ≡ k

  -- A step of the loops that ends with no error began with none, and keeps the graph well typed.
  abbrev pub Keeps : Wiring → Wiring → Type 0
  Keeps s t = t.errors ≡ [] → (s.errors ≡ []) × (IsWired s → IsWired t)

  pub Keeps-trans : (s t u : Wiring) → Keeps s t → Keeps t u → Keeps s u
  Keeps-trans s t u f g h =
      let (clean, later) = g h in let (start, first) = f clean in (start, λ w. later (first w))

  pub add-Keeps : (ds : Errors) (s : Wiring) → Keeps s (add ds s)
  add-Keeps ds s h = (
    (append-eq-nil s.errors ds h).0,
    λ w. record {
      routed = w.routed;
      offered = w.offered;
      distinct = w.distinct;
      bound = w.bound;
      single = w.single;
    },
  )

  abbrev pub Steps : Wiring → Option Wiring → Type 0
  Steps s o = (t : Wiring) × (o ≡ some t) × Keeps s t

pub has_pair-subst :
    (ps : Pairs) (a b c d : String)
    → (str_eq a c && str_eq b d) ≡ true
    → has_pair ps a b ≡ has_pair ps c d
has_pair-subst ps a b c d h =
    let (e, f) = and→both (str_eq a c) (str_eq b d) h in cc ((eq_iff a c).0 e, (eq_iff b d).0 f)

pub has_pair-add_pair :
    (ps : Pairs) (a b c d : String)
    → has_pair (add_pair ps a b) c d ≡ ((str_eq a c && str_eq b d) || has_pair ps c d)
has_pair-add_pair ps a b c d = elim (Bool-cases (has_pair ps a b)) [
  | inl e ↦ rw e (elim (Bool-cases (str_eq a c && str_eq b d)) [
    | inl same ↦ rw same (sym (has_pair-subst ps a b c d same) ∙ e)
    | inr other ↦ rw other refl
  ])
  | inr e ↦ rw e refl
]

-- Every alias stands for an instance.
abbrev pub Lives : Map FlowInstance → Map String → Type 0
Lives instances aliases =
    (a i : String)
    → Maps.get aliases a ≡ some i
    → (f : FlowInstance) × (Maps.get instances i ≡ some f)

-- The instance that an end of a connection or of a binding names is in the graph.
pub endpoint-Lives :
    (instances : Map FlowInstance) (aliases : Map String)
    → Lives instances aliases
    → (bridge : String) (e d : Endpoint) (path : String)
    → (resolve_endpoint bridge e aliases path).0 ≡ some d
    → (f : FlowInstance) × (found_in instances d ≡ some f)
unfolding resolve_endpoint
endpoint-Lives instances aliases lives bridge e d path =
    elim (Bool-cases (contains_char b'/' e.instance_name)) [
      | inl scoped ↦ rw scoped (λ h. cc)
      | inr plain ↦
          let alias =
            if str_eq e.instance_name "root" then "root" else bridge <> "/" <> e.instance_name in
          rw plain (elim (Option-cases (Maps.get aliases alias)) [
            | inl absent ↦ rw absent (λ h. cc)
            | inr (i, known) ↦ rw known (λ h.
                let (f, made) = lives alias i known in
                let same : endpoint i e.port ≡ d = cc in
                (f, subst (λ z. found_in instances z ≡ some f) same made))
          ])
    ]
