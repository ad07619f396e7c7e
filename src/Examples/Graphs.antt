-- ===== src/Examples/Graphs.antt =====
-- A composition of two flows: a bridge imports the second, connects a branch of the first to its
-- entry, and binds a dataset of the first to its requirement.
use zedflow.Base.Text.{is_blank}
use zedflow.Base.{String, ◌≡◌, refl, Bool, true, false, none, some, [], ◌∷◌, arith, ◌↔◌}
use zedflow.Base.Outcome.{Outcome, ok, err}
use zedflow.Base.Maps
use zedflow.Base.Maps.{Map}
use zedflow.Base.Sets
use zedflow.Json.{as_array, is_string, as_object, Value, string}
use zedflow.Core.Types.{type_eq, compatible, accepts, get_field, check_type, validate_type, text}
use zedflow.Core.Values.{check_value, validate_value}
use zedflow.Flows.Predicate.{Predicate}
use zedflow.Flows.Composition.{
  includes, node, BranchPoint, read_write, DataExposure, DataRequirement, FlowDefinition,
  FlowImport, endpoint, launch, connection, BridgeDefinition, CompositionCatalog, ResolveRequest,
}
use zedflow.Compiler.Resolve.{FlowInstance, Route, ResolvedDataBinding, RuntimeGraph, Errors}
use zedflow.Compiler.Resolve.Bridges.{Deps, dependencies, can_reuse}
use zedflow.Compiler.Resolve.Selection.{Visits, dependencies-Visits}
use zedflow.Compiler.Resolve.Search.{MayReuse, can_reuse-MayReuse}
use zedflow.Base.Text.{any_char, is_empty, is_trimmed, is_blank}
use zedflow.Compiler.Resolve.Instances.{resolve_endpoint, resolve_alias}
use zedflow.Compiler.Resolve.Instancing.{Resolves}
use zedflow.Compiler.Resolve.Instancing.Ends.{resolve_alias-Resolves}
use zedflow.Compiler.Resolve.Plan.{start, resolve}
use zedflow.Compiler.Resolve.Total.{start-IsConsistent}
use zedflow.Compiler.Resolve.Graph.{IsSound}
use zedflow.Compiler.Resolve.Sound.{resolve_total, resolve-IsSound}
use zedflow.Compiler.Resolve.Carries.{route_value, binding_value}
use zedflow.Examples.Types.{declared, wide, narrow, letter, debug}

abbrev ask : BranchPoint
ask = record {
  contract = record { input = wide; output = none };
  invocations = node ∷ [];
  requesters = [];
}

abbrev log : DataExposure
log = record { data_type = text; permissions = read_write }

abbrev need : DataRequirement
need = record { data_type = text; permissions = read_write; optional = false }

abbrev main : FlowDefinition
main = record {
  entries = ("start", record { input = text; output = none }) ∷ [];
  branches = ("ask", ask) ∷ [];
  exposed = ("log", log) ∷ [];
  requires = [];
  inference_nodes = [];
}

abbrev helper : FlowDefinition
helper = record {
  entries = ("run", record { input = narrow; output = none }) ∷ [];
  branches = [];
  exposed = [];
  requires = ("log", need) ∷ [];
  inference_nodes = [];
}

abbrev link : BridgeDefinition
link = record {
  requires = "base" ∷ [];
  imports = ("helper", record { flow = "helper"; reuse = none }) ∷ [];
  connections =
      ("c", connection (endpoint "root" "ask") (endpoint "helper" "run") launch node) ∷ [];
  bindings =
      (
        "b",
        record {
          from = endpoint "root" "log";
          to = endpoint "helper" "log";
          permissions = read_write;
        },
      )
      ∷ [];
}

abbrev base : BridgeDefinition
base = record { requires = []; imports = []; connections = []; bindings = [] }

abbrev catalog : CompositionCatalog
catalog = record {
  types = declared;
  flows = ("helper", helper) ∷ ("main", main) ∷ [];
  bridges = ("base", base) ∷ ("link", link) ∷ [];
}

abbrev request : ResolveRequest
request = record { flow = "main"; entry = "start"; bridges = "link" ∷ [] }

abbrev from_value : Value → Outcome String Predicate
from_value v = err "no predicate"

abbrev route : Route
route = record {
  bridge = "link";
  from = endpoint "root" "ask";
  to = endpoint "link/helper" "run";
  mode = launch;
  invocation = node;
  tool_name = none;
  condition = none;
  input = narrow;
  output = none;
}

abbrev bound : ResolvedDataBinding
bound = record {
  bridge = "link";
  from = endpoint "root" "log";
  to = endpoint "link/helper" "log";
  permissions = read_write;
  data_type = text;
}

abbrev main_instance : FlowInstance
main_instance = record { flow = "main"; definition = main }

abbrev helper_instance : FlowInstance
helper_instance = record { flow = "helper"; definition = helper }

abbrev graph : RuntimeGraph
graph = record {
  entry = endpoint "root" "start";
  types = declared;
  bridges = catalog.bridges;
  instances = ("link/helper", helper_instance) ∷ ("root", main_instance) ∷ [];
  aliases = ("link/helper", "link/helper") ∷ ("root", "root") ∷ [];
  routes = ("link/c", route) ∷ [];
  data_bindings = ("link/b", bound) ∷ [];
  inferences = [];
}

resolve-graph : resolve from_value catalog request ≡ some (ok graph)
unfolding resolve Sets.insert dependencies Maps.get Maps.insert resolve_alias resolve_endpoint
    any_char connection validate_type check_type is_blank is_empty is_trimmed compatible accepts
    get_field type_eq includes
resolve-graph = refl

resolve_total_example :
    (answer : Outcome Errors RuntimeGraph) × (resolve from_value catalog request ≡ some answer)
resolve_total_example = resolve_total from_value catalog request

resolve-IsSound_example : IsSound from_value catalog request graph
resolve-IsSound_example = resolve-IsSound from_value catalog request graph resolve-graph

route_value_example : validate_value debug narrow letter declared ≡ some (ok tt)
unfolding validate_value Maps.get validate_type check_type is_blank check_value as_object is_string
    as_array
route_value_example =
    route_value from_value catalog request graph resolve-graph debug "link/c" route main_instance
      ask letter refl refl refl refl

binding_value_example : validate_value debug text (string "line") declared ≡ some (ok tt)
unfolding validate_value Maps.get validate_type check_type check_value is_string
binding_value_example =
    binding_value from_value catalog request graph resolve-graph debug "link/b" bound
      helper_instance need (string "line") refl refl refl refl refl

can_reuse-MayReuse_example :
    (b : Bool) × (can_reuse "link" "base/shared" catalog.bridges ≡ some b)
    × (b ≡ true ↔ MayReuse catalog.bridges "link" "base/shared")
can_reuse-MayReuse_example = can_reuse-MayReuse "link" "base/shared" catalog.bridges

abbrev unvisited : Deps
unvisited = record { visiting = []; active = []; errors = [] }

dependencies-Visits_example :
    Visits catalog.bridges (dependencies 129 catalog.bridges "link" unvisited) "link" unvisited
dependencies-Visits_example =
    dependencies-Visits catalog.bridges 129 "link" unvisited (omega arith) (omega arith)

abbrev imported : Map FlowImport
imported = ("link/helper", record { flow = "helper"; reuse = none }) ∷ []

resolve_alias-Resolves_example :
    Resolves catalog imported "link/helper"
      (start request main [])
      (resolve_alias catalog imported 129 "link/helper" (start request main []))
unfolding Maps.get
resolve_alias-Resolves_example =
    resolve_alias-Resolves catalog imported 129 "link/helper" (start request main [])
      (start-IsConsistent catalog imported request main [] refl) (omega arith) (omega arith)
