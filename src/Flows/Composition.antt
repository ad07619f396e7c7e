-- ===== src/Flows/Composition.antt =====
-- rust/crates/zf-flows/src/composition.rs: interfaces of flows, bridges between them, and builders.
use zedflow.Base.{String, Bool, true, false, not, ◌&&◌, ◌||◌, Option, none, some, List, []}
use zedflow.Base.Maps
use zedflow.Base.Maps.{Map}
use zedflow.Base.Sets
use zedflow.Base.Sets.{Set}
use zedflow.Json.{Value}
use zedflow.Core.Types.{DataType, TypeRegistry}

pub record PortContract : Type 0 where
  pub input : DataType
  pub output : Option DataType

pub data InvocationKind : Type 0 where
  tool node condition context : InvocationKind

pub record BranchPoint : Type 0 where
  pub contract : PortContract
  pub invocations : List InvocationKind
  pub requesters : Set

pub record DataPermissions : Type 0 where
  pub read : Bool
  pub write : Bool

-- `DataPermissions::contains`
unfoldable pub includes : DataPermissions → DataPermissions → Bool
includes p other = (not other.read || p.read) && (not other.write || p.write)

pub record DataExposure : Type 0 where
  pub data_type : DataType
  pub permissions : DataPermissions

pub record DataRequirement : Type 0 where
  pub data_type : DataType
  pub permissions : DataPermissions
  pub optional : Bool

pub data ModelBinding : Type 0 where
  fixed : String → String → ModelBinding
  runtime : ModelBinding

pub record InferenceDefinition : Type 0 where
  pub model : ModelBinding
  pub context_strategy : Option String
  pub resources : Set
  pub capabilities : Set

pub record FlowDefinition : Type 0 where
  pub entries : Map PortContract
  pub branches : Map BranchPoint
  pub exposed : Map DataExposure
  pub requires : Map DataRequirement
  pub inference_nodes : Map InferenceDefinition

pub record FlowImport : Type 0 where
  pub flow : String
  pub reuse : Option String

-- `Endpoint`, and `Endpoint::new` as its tuple.
pub record Endpoint : Type 0 where
  pub instance_name : String
  pub port : String

pub data RouteMode : Type 0 where
  call_await launch handoff : RouteMode

pub record Connection : Type 0 where
  pub from : Endpoint
  pub to : Endpoint
  pub mode : RouteMode
  pub invocation : InvocationKind
  pub tool_name : Option String
  pub condition : Option Value

pub record DataBinding : Type 0 where
  pub from : Endpoint
  pub to : Endpoint
  pub permissions : DataPermissions

pub record BridgeDefinition : Type 0 where
  pub requires : Set
  pub imports : Map FlowImport
  pub connections : Map Connection
  pub bindings : Map DataBinding

pub record CompositionCatalog : Type 0 where
  pub types : TypeRegistry
  pub flows : Map FlowDefinition
  pub bridges : Map BridgeDefinition

pub record ResolveRequest : Type 0 where
  pub flow : String
  pub entry : String
  pub bridges : List String

abbrev pub endpoint : String → String → Endpoint
endpoint i p = record { instance_name = i; port = p }

abbrev pub read_only : DataPermissions
read_only = record { read = true; write = false }

abbrev pub read_write : DataPermissions
read_write = record { read = true; write = true }

-- `Connection::new`, `tool` and `when`.
unfoldable pub connection : Endpoint → Endpoint → RouteMode → InvocationKind → Connection
connection f t m i = record {
  from = f;
  to = t;
  mode = m;
  invocation = i;
  tool_name = none;
  condition = none;
}

unfoldable pub as_tool : Connection → String → Connection
as_tool c name = record c { tool_name = some name }

unfoldable pub when : Connection → Value → Connection
when c predicate = record c { condition = some predicate }

-- `BridgeDefinition::new` and its builders.
abbrev pub new_bridge : BridgeDefinition
new_bridge = record { requires = []; imports = []; connections = []; bindings = [] }

unfoldable pub require : BridgeDefinition → String → BridgeDefinition
require b bridge = record b { requires = Sets.insert b.requires bridge }

unfoldable pub import : BridgeDefinition → String → String → BridgeDefinition
import b alias flow = record b {
  imports = Maps.insert b.imports alias (record { flow = flow; reuse = none });
}

unfoldable pub reuse_instance : BridgeDefinition → String → String → String → BridgeDefinition
reuse_instance b alias flow target = record b {
  imports = Maps.insert b.imports alias (record { flow = flow; reuse = some target });
}

unfoldable pub connect : BridgeDefinition → String → Connection → BridgeDefinition
connect b name c = record b { connections = Maps.insert b.connections name c }

unfoldable pub bind :
    BridgeDefinition → String → Endpoint → Endpoint → DataPermissions → BridgeDefinition
bind b name f t p = record b {
  bindings = Maps.insert b.bindings name (record { from = f; to = t; permissions = p });
}
