-- ===== src/Compiler/Resolve/Plan.antt =====
-- rust/crates/zf-compiler/src/resolve.rs: the function `resolve`, phase by phase. `none` is a panic
-- on a missing key, or the end of the fuel that its recursions take.
use zedflow.Base.{
  ℕ, suc, String, ◌<>◌, true, false, not, ◌&&◌, Option, none, some, List, [], ◌∷◌, ◌++◌, str_eq,
  contains,
}
use zedflow.Base.Panic.{◌>>=◌, fold_each}
use zedflow.Base.Outcome.{Outcome, ok, err}
use zedflow.Base.Maps
use zedflow.Base.Maps.{Map, contains_key, keys, values}
use zedflow.Base.Sets
use zedflow.Base.Sets.{Set}
use zedflow.Json.{Value}
use zedflow.Core.Diagnostic.{diagnostic}
use zedflow.Core.Types.{named, TypeRegistry}
use zedflow.Flows.Predicate.{Predicate}
use zedflow.Flows.Composition.{
  DataRequirement, InferenceDefinition, FlowDefinition, FlowImport, endpoint, BridgeDefinition,
  CompositionCatalog, ResolveRequest,
}
use zedflow.Compiler.Resolve.{
  FlowInstance, ResolvedInference, RuntimeGraph, Errors, report, each, name_errors,
  data_type_errors, validate_flow,
}
use zedflow.Compiler.Resolve.Bridges.{max_depth, Deps, dependencies}
use zedflow.Compiler.Resolve.Instances.{Resolver, resolve_alias}
use zedflow.Compiler.Resolve.Wiring.{Pairs, has_pair, Wiring, wire_connection}
use zedflow.Compiler.Resolve.Wiring.Data.{wire_binding}

-- A recursion that enters 128 names is refused at the next one.
abbrev pub walk_fuel : ℕ
walk_fuel = suc max_depth

unfoldable pub registry_errors : TypeRegistry → Errors
registry_errors types = each (λ id. data_type_errors (named id) types ("types." <> id)) (keys types)

-- `request.bridges.iter().collect::<BTreeSet<_>>()`
abbrev pub selected : List String → Set
selected [] = []
selected (id ∷ ids) = Sets.insert (selected ids) id

-- The walk from one selected bridge, with a `visiting` of its own.
unfoldable pub select_bridge : Map BridgeDefinition → String → Deps → Option Deps
select_bridge bridges id s = dependencies walk_fuel bridges id (record s { visiting = [] })

-- The imports of the active bridges under their qualified names.
unfoldable pub add_import :
    String → String × FlowImport → Map FlowImport × Errors → Map FlowImport × Errors
add_import bridge (alias, import) (imports, errors) = (
  Maps.insert imports (bridge <> "/" <> alias) import,
  errors
      ++ name_errors alias ("bridges." <> bridge <> ".imports." <> alias)
      ++ report (str_eq alias "root") "reserved_alias" ("bridges." <> bridge <> ".imports.root")
          "root is reserved for the selected instance",
)

abbrev pub add_imports : String → Map FlowImport → Map FlowImport × Errors → Map FlowImport × Errors
add_imports bridge [] s = s
add_imports bridge (entry ∷ entries) s = add_imports bridge entries (add_import bridge entry s)

unfoldable pub import_bridge :
    Map BridgeDefinition → String → Map FlowImport × Errors → Option (Map FlowImport × Errors)
unfolding add_import
import_bridge bridges id s =
    Maps.get bridges id >>= λ bridge. some (add_imports id bridge.imports s)

-- The resolver before its loop: the selected flow under the name `root`.
abbrev pub start : ResolveRequest → FlowDefinition → Errors → Resolver
start request root errors = record {
  aliases = ("root", "root") ∷ [];
  instances = ("root", record { flow = request.flow; definition = root }) ∷ [];
  visiting = [];
  errors = errors;
}

unfoldable pub resolve_step :
    CompositionCatalog → Map FlowImport → String → Resolver → Option Resolver
resolve_step catalog imports alias r =
    resolve_alias catalog imports walk_fuel alias r >>= λ answer. some (answer.1)

-- The loop with the set `validated`.
unfoldable pub validate_flows : TypeRegistry → List FlowInstance → Set → Errors
unfolding validate_flow
validate_flows types [] validated = []
validate_flows types (i ∷ is) validated = elim (contains validated i.flow) [
  | true ↦ validate_flows types is validated
  | false ↦
      validate_flow i.flow i.definition types
      ++ validate_flows types is (Sets.insert validated i.flow)
]

unfoldable pub copy_bridge :
    Map BridgeDefinition → String → Map BridgeDefinition → Option (Map BridgeDefinition)
copy_bridge bridges id copied =
    Maps.get bridges id >>= λ bridge. some (Maps.insert copied id bridge)

-- One round of the loop that wires a bridge, and the loop.
module _ (from_value : Value → Outcome String Predicate) (catalog : CompositionCatalog) where
  unfoldable pub wire_bridge : Map FlowInstance → Map String → String → Wiring → Option Wiring
  unfolding wire_connection wire_binding
  wire_bridge instances aliases id s = Maps.get catalog.bridges id >>= λ bridge.
      fold_each (wire_connection from_value catalog.types id instances aliases) bridge.connections s
      >>= λ t. fold_each (wire_binding catalog.types id instances aliases) bridge.bindings t

-- The last loop: requirements that no binding serves, and the inferences.
unfoldable pub unbound_error : Pairs → String → String × DataRequirement → Errors
unbound_error bound instance_id (id, requirement) =
    report (not requirement.optional && not (has_pair bound instance_id id)) "unbound_data"
      ("instances." <> instance_id <> ".requires." <> id) "Required dataset has no binding"

unfoldable pub unbound_errors : Pairs → String × FlowInstance → Errors
unfolding unbound_error
unbound_errors bound (id, i) = each (unbound_error bound id) i.definition.requires

abbrev add_inferences :
    String → Map InferenceDefinition → Map ResolvedInference → Map ResolvedInference
add_inferences id [] found = found
add_inferences id ((node, definition) ∷ rest) found = add_inferences id rest (
    Maps.insert found (id <> "/" <> node)
      (record { instance_name = id; node = node; definition = definition }))

unfoldable pub inferences : Map FlowInstance → Map ResolvedInference → Map ResolvedInference
inferences [] found = found
inferences ((id, i) ∷ rest) found =
    inferences rest (add_inferences id i.definition.inference_nodes found)

abbrev pub conclude : RuntimeGraph → Errors → Outcome Errors RuntimeGraph
conclude graph [] = ok graph
conclude graph (d ∷ ds) = err (d ∷ ds)

-- The graph, and what the last loop and the end of `resolve` do.
unfoldable pub assemble :
    CompositionCatalog
    → ResolveRequest
    → Map BridgeDefinition
    → Resolver
    → Wiring
    → Outcome Errors RuntimeGraph
unfolding unbound_errors inferences
assemble catalog request bridges r wired =
    conclude
      (record {
        entry = endpoint "root" request.entry;
        types = catalog.types;
        bridges = bridges;
        instances = r.instances;
        aliases = r.aliases;
        routes = wired.routes;
        data_bindings = wired.data_bindings;
        inferences = inferences r.instances [];
      })
      (wired.errors ++ each (unbound_errors wired.bound) r.instances)

module _ (from_value : Value → Outcome String Predicate) where
  -- What follows the check for the root flow.
  unfoldable pub resolve_root :
      CompositionCatalog
      → ResolveRequest
      → Deps
      → Option FlowDefinition
      → Option (Outcome Errors RuntimeGraph)
  unfolding import_bridge resolve_step validate_flows copy_bridge wire_bridge assemble
  resolve_root catalog request deps none = some (
      err (
        deps.errors
        ++ diagnostic "missing_flow" "request.flow" "Selected root flow is absent" ∷ []))
  resolve_root catalog request deps (some root) =
      let entry =
        report (not (contains_key root.entries request.entry)) "unknown_entry" "request.entry"
          "Selected entry is not exposed by the root flow" in
      fold_each (import_bridge catalog.bridges) deps.active ([], deps.errors ++ entry)
      >>= λ gathered.
          fold_each (resolve_step catalog gathered.0) (keys gathered.0)
            (start request root gathered.1)
          >>= λ resolved. fold_each (copy_bridge catalog.bridges) deps.active [] >>= λ bridges.
              fold_each (wire_bridge from_value catalog resolved.instances resolved.aliases)
                deps.active
                (record {
                  errors =
                      resolved.errors
                      ++ validate_flows catalog.types (values resolved.instances) [];
                  routes = [];
                  data_bindings = [];
                  bound = [];
                  tools = [];
                })
              >>= λ wired. some (assemble catalog request bridges resolved wired)

  unfoldable pub resolve :
      CompositionCatalog → ResolveRequest → Option (Outcome Errors RuntimeGraph)
  unfolding registry_errors select_bridge resolve_root
  resolve catalog request =
      fold_each (select_bridge catalog.bridges) (selected request.bridges)
        (record { visiting = []; active = []; errors = registry_errors catalog.types })
      >>= λ deps. resolve_root catalog request deps (Maps.get catalog.flows request.flow)
