-- ===== src/Compiler/Resolve.antt =====
-- rust/crates/zf-compiler/src/resolve.rs: the types of a resolved graph, and the checks of names,
-- contracts and flows. What the source pushes onto `errors` is returned.
pub mod Bridges
pub mod Instances
pub mod Wiring
pub mod Plan
pub mod Selection
pub mod Search
pub mod Instancing
pub mod Routes
pub mod Total
pub mod Graph
pub mod Sound
pub mod Carries
use Prim.Native.String.{len}
use zedflow.Base.{
  ℕ, String, ◌<>◌, Bool, true, false, not, ◌&&◌, ◌||◌, Option, none, some, List, [], ◌∷◌, ◌++◌, map,
  ltb, if◌then◌else◌, is_some_and, get_or,
}
use zedflow.Base.Text.{
  is_empty, is_blank, is_trimmed, is_control, any_char, contains_char, strip_prefix,
}
use zedflow.Base.Outcome.{Outcome, ok, err}
use zedflow.Base.Maps
use zedflow.Base.Maps.{Map, contains_key}
use zedflow.Json.{Value}
use zedflow.Core.Diagnostic.{Diagnostic, diagnostic}
use zedflow.Core.Types.{DataType, TypeRegistry, validate_type}
use zedflow.Flows.Composition.{
  PortContract, InvocationKind, BranchPoint, DataPermissions, DataExposure, DataRequirement,
  ModelBinding, fixed, runtime, InferenceDefinition, FlowDefinition, Endpoint, RouteMode,
  BridgeDefinition,
}

pub record FlowInstance : Type 0 where
  pub flow : String
  pub definition : FlowDefinition

pub record Route : Type 0 where
  pub bridge : String
  pub from : Endpoint
  pub to : Endpoint
  pub mode : RouteMode
  pub invocation : InvocationKind
  pub tool_name : Option String
  pub condition : Option Value
  pub input : DataType
  pub output : Option DataType

pub record ResolvedDataBinding : Type 0 where
  pub bridge : String
  pub from : Endpoint
  pub to : Endpoint
  pub permissions : DataPermissions
  pub data_type : DataType

pub record ResolvedInference : Type 0 where
  pub instance_name : String
  pub node : String
  pub definition : InferenceDefinition

pub record RuntimeGraph : Type 0 where
  pub entry : Endpoint
  pub types : TypeRegistry
  pub bridges : Map BridgeDefinition
  pub instances : Map FlowInstance
  pub aliases : Map String
  pub routes : Map Route
  pub data_bindings : Map ResolvedDataBinding
  pub inferences : Map ResolvedInference

abbrev pub Errors : Type 0
Errors = List Diagnostic

-- One diagnostic where the test holds.
abbrev pub report : Bool → String → String → String → Errors
report true code path message = diagnostic code path message ∷ []
report false code path message = []

-- The errors of each element of a collection, in order.
abbrev pub each {ℓ} : {A : Type ℓ} → (A → Errors) → List A → Errors
each f [] = []
each f (x ∷ xs) = f x ++ each f xs

unfoldable pub name_errors : String → String → Errors
name_errors n path =
    report
      (is_empty n
        || ltb 160 (len n)
        || contains_char b'/' n
        || any_char is_control n
        || not (is_trimmed n))
      "invalid_name" path "Names must be nonempty path segments of at most 160 bytes"

abbrev relocate : String → Diagnostic → Diagnostic
relocate path d = record d { path = path <> get_or (strip_prefix "$" d.path) d.path }

unfoldable pub data_type_errors : DataType → TypeRegistry → String → Errors
data_type_errors t types path = elim (validate_type t types) [
  | ok _ ↦ []
  | err found ↦ map (relocate path) found
]

abbrev option_errors {ℓ} : {A : Type ℓ} → Option A → (A → Errors) → Errors
option_errors none f = []
option_errors (some a) f = f a

unfoldable pub contract_errors : PortContract → TypeRegistry → String → Errors
unfolding data_type_errors
contract_errors c types path =
    data_type_errors c.input types (path <> ".input")
    ++ option_errors c.output (λ t. data_type_errors t types (path <> ".output"))

unfoldable pub permission_errors : DataPermissions → String → Errors
permission_errors p path =
    if not p.read && not p.write
    then report true "empty_permissions" path "At least one data permission is required"
    else report (p.write && not p.read) "permissions_unsupported" path
        "Write-only access is unsupported; explicitly grant read and write access or read access"

abbrev pub none_of {ℓ} : {A : Type ℓ} → List A → Bool
none_of [] = true
none_of (x ∷ xs) = false

-- The five loops of `validate_flow`.
unfoldable pub entry_errors : TypeRegistry → String → String × PortContract → Errors
unfolding name_errors contract_errors
entry_errors types flow (id, c) =
    let path = flow <> ".entries." <> id in name_errors id path ++ contract_errors c types path

unfoldable pub branch_errors : TypeRegistry → String → String × BranchPoint → Errors
unfolding name_errors contract_errors
branch_errors types flow (id, b) =
    let path = flow <> ".branches." <> id in
    name_errors id path
    ++ contract_errors b.contract types path
    ++ report (none_of b.invocations && none_of b.requesters) "missing_invocation" path
        "A branch must declare how it can be invoked"
    ++ report (not (none_of b.invocations) && not (none_of b.requesters))
        "ambiguous_branch_contract" path
        "A neutral plug declares requesters; legacy invocation policy cannot be combined with it"
    ++ each (λ requester. name_errors requester (path <> ".requesters")) b.requesters

unfoldable pub exposure_errors :
    TypeRegistry → String → FlowDefinition → String × DataExposure → Errors
unfolding name_errors data_type_errors permission_errors
exposure_errors types flow definition (id, x) =
    let path = flow <> ".data." <> id in
    name_errors id path
    ++ data_type_errors x.data_type types path
    ++ permission_errors x.permissions path
    ++ report (contains_key definition.requires id) "ambiguous_data" path
        "A data name cannot be both exposed and required"

unfoldable pub requirement_errors : TypeRegistry → String → String × DataRequirement → Errors
unfolding name_errors data_type_errors permission_errors
requirement_errors types flow (id, x) =
    let path = flow <> ".requires." <> id in
    name_errors id path
    ++ data_type_errors x.data_type types path
    ++ permission_errors x.permissions path

abbrev is_unnamed : ModelBinding → Bool
is_unnamed (fixed provider model) = is_blank provider || is_blank model
is_unnamed runtime = false

unfoldable pub inference_errors : String → FlowDefinition → String × InferenceDefinition → Errors
unfolding name_errors
inference_errors flow definition (id, x) =
    let path = flow <> ".inferenceNodes." <> id in
    name_errors id path
    ++ report (is_unnamed x.model) "missing_model" path
        "A fixed inference requires provider and model"
    ++ report (is_some_and x.context_strategy is_blank) "invalid_strategy" path
        "Context strategy must be named when specified"
    ++ each
        (λ resource.
          report
            (not (contains_key definition.exposed resource)
              && not (contains_key definition.requires resource))
            "unknown_resource" path ("Undeclared inference resource: " <> resource))
        x.resources
    ++ each (λ capability. name_errors capability (path <> ".capabilities")) x.capabilities

unfoldable pub validate_flow : String → FlowDefinition → TypeRegistry → Errors
unfolding entry_errors branch_errors exposure_errors requirement_errors inference_errors
validate_flow id flow types =
    let path = "flows." <> id in
    report (none_of flow.entries) "missing_entry" path
      "A flow must declare at least one public entry"
    ++ each (entry_errors types path) flow.entries
    ++ each (branch_errors types path) flow.branches
    ++ each (exposure_errors types path flow) flow.exposed
    ++ each (requirement_errors types path) flow.requires
    ++ each (inference_errors path flow) flow.inference_nodes
