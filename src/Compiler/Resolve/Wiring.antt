-- ===== src/Compiler/Resolve/Wiring.antt =====
-- rust/crates/zf-compiler/src/resolve.rs: the loops of `resolve` over the connections and the data
-- bindings of a bridge. `none` is a panic on an instance that is not in the graph.
pub mod Data
use zedflow.Base.{
  String, ◌<>◌, Bool, true, false, not, ◌&&◌, ◌||◌, Option, none, some, List, [], ◌∷◌, ◌++◌, any,
  is_some, str_eq, if◌then◌else◌,
}
use zedflow.Base.Panic.{◌>>=◌}
use zedflow.Base.Text.{is_blank}
use zedflow.Base.Outcome.{Outcome, ok, err}
use zedflow.Base.Maps
use zedflow.Base.Maps.{Map}
use zedflow.Json.{Value}
use zedflow.Core.Types.{DataType, TypeRegistry, compatible}
use zedflow.Flows.Predicate.{Predicate, parse_predicate}
use zedflow.Flows.Composition.{
  PortContract, InvocationKind, tool, node, condition, context, BranchPoint, DataPermissions,
  includes, DataExposure, DataRequirement, Endpoint, RouteMode, call_await, Connection, DataBinding,
}
use zedflow.Compiler.Resolve.{
  FlowInstance, Route, ResolvedDataBinding, Errors, report, name_errors, permission_errors,
}
use zedflow.Compiler.Resolve.Instances.{resolve_endpoint}

abbrev pub Pairs : Type 0
Pairs = List (String × String)

abbrev pub has_pair : Pairs → String → String → Bool
has_pair ps a b = any (λ (p : String × String). str_eq p.0 a && str_eq p.1 b) ps

abbrev pub add_pair : Pairs → String → String → Pairs
add_pair ps a b = if has_pair ps a b then ps else (a, b) ∷ ps

-- What the loops change: the errors, the two maps of the graph and the sets `bound` and `tools`.
pub record Wiring : Type 0 where
  pub errors : Errors
  pub routes : Map Route
  pub data_bindings : Map ResolvedDataBinding
  pub bound : Pairs
  pub tools : Pairs

abbrev pub add : Errors → Wiring → Wiring
add ds s = record s { errors = s.errors ++ ds }

unfoldable pub kind_eq : InvocationKind → InvocationKind → Bool
kind_eq tool tool = true
kind_eq node node = true
kind_eq condition condition = true
kind_eq context context = true
kind_eq _ _ = false

abbrev pub awaits : RouteMode → Bool
awaits call_await = true
awaits _ = false

abbrev pub none_of : List String → Bool
none_of [] = true
none_of _ = false

abbrev bool_eq : Bool → Bool → Bool
bool_eq a b = if a then b else not b

unfoldable pub same_permissions : DataPermissions → DataPermissions → Bool
same_permissions p q = bool_eq p.read q.read && bool_eq p.write q.write

-- The result of the destination, where the branch expects one.
abbrev pub output_fits : TypeRegistry → Option DataType → Option DataType → Bool
output_fits types none output = true
output_fits types (some expected) none = false
output_fits types (some expected) (some output) = compatible output expected types

-- The `match` on the invocation and the name of the tool, which also claims the name.
unfoldable pub wire_tool : InvocationKind → Option String → String → String → Wiring → Wiring
wire_tool tool (some name) from path s =
    if is_blank name
    then add (report true "missing_tool_name" path "Tool routes require an explicit tool name") s
    else record s {
      errors =
          s.errors
          ++ name_errors name (path <> ".toolName")
          ++ report (has_pair s.tools from name) "duplicate_tool" path
              "Two routes expose the same tool name on one instance";
      tools = add_pair s.tools from name;
    }
wire_tool tool none from path s =
    add (report true "missing_tool_name" path "Tool routes require an explicit tool name") s
wire_tool kind name from path s =
    add (report (is_some name) "unexpected_tool_name" path "Only tool routes declare toolName") s

-- The two diagnostics on the types of a route, and the one on its invocation.
unfoldable pub route_errors :
    TypeRegistry → Connection → BranchPoint → PortContract → String → Errors
unfolding kind_eq
route_errors types c source target path =
    report (none_of source.requesters && not (any (kind_eq c.invocation) source.invocations))
      "invocation_not_allowed" path "This branch does not permit the requested invocation kind"
    ++ report (not (compatible source.contract.input target.input types)) "route_input_type" path
        "Branch arguments are incompatible with the destination input"
    ++ report (awaits c.mode && not (output_fits types source.contract.output target.output))
        "route_output_type" path "Destination result does not satisfy the awaited output contract"

abbrev pub found_in : Map FlowInstance → Endpoint → Option FlowInstance
found_in instances e = Maps.get instances e.instance_name

module _ (from_value : Value → Outcome String Predicate) where
  -- The `match` on the invocation and the condition.
  unfoldable pub condition_errors : InvocationKind → Option Value → String → Errors
  condition_errors condition (some value) path = elim (parse_predicate from_value value) [
    | ok _ ↦ []
    | err message ↦ report true "invalid_condition" path message
  ]
  condition_errors condition none path =
      report true "missing_condition" path "Conditional routes require a typed predicate"
  condition_errors kind (some value) path =
      report true "unexpected_condition" path "Only conditional routes declare a predicate"
  condition_errors kind none path = []

  module _ (types : TypeRegistry) (bridge_id : String) where
    -- The rest of the round, once both ends of the connection are known.
    unfoldable pub wire_route :
        String
        → Connection
        → String
        → Endpoint
        → Endpoint
        → BranchPoint
        → PortContract
        → Wiring
        → Wiring
    unfolding route_errors wire_tool condition_errors
    wire_route id c path from to source target s =
        let typed = add (route_errors types c source target path) s in
        let tooled = wire_tool c.invocation c.tool_name from.instance_name path typed in
        let checked = add (condition_errors c.invocation c.condition path) tooled in
        record checked {
          routes = Maps.insert checked.routes (bridge_id <> "/" <> id) (record {
            bridge = bridge_id;
            from = from;
            to = to;
            mode = c.mode;
            invocation = c.invocation;
            tool_name = c.tool_name;
            condition = c.condition;
            input = target.input;
            output = target.output;
          });
        }

    unfoldable pub wire_target :
        String
        → Connection
        → String
        → Endpoint
        → Endpoint
        → BranchPoint
        → Option PortContract
        → Wiring
        → Wiring
    unfolding wire_route
    wire_target id c path from to source none s =
        add (report true "unknown_entry" (path <> ".to") "Target is not an exposed entry point") s
    wire_target id c path from to source (some target) s =
        wire_route id c path from to source target s

    unfoldable pub wire_source :
        Map FlowInstance
        → String
        → Connection
        → String
        → Endpoint
        → Endpoint
        → Option BranchPoint
        → Wiring
        → Option Wiring
    unfolding wire_target
    wire_source instances id c path from to none s = some (
        add (report true "unknown_branch" (path <> ".from") "Source is not an exposed branch point")
          s)
    wire_source instances id c path from to (some source) s = do
      found ← found_in instances to
      some (wire_target id c path from to source (Maps.get found.definition.entries to.port) s)

    -- `let (Some(from), Some(to)) = (from, to) else { continue }`
    unfoldable pub wire_ends :
        Map FlowInstance
        → String
        → Connection
        → String
        → Option Endpoint
        → Option Endpoint
        → Wiring
        → Option Wiring
    unfolding wire_source
    wire_ends instances id c path (some from) (some to) s = do
      found ← found_in instances from
      wire_source instances id c path from to (Maps.get found.definition.branches from.port) s
    wire_ends instances id c path _ _ s = some s

    -- One round of the loop over the connections.
    unfoldable pub wire_connection :
        Map FlowInstance → Map String → String × Connection → Wiring → Option Wiring
    unfolding wire_ends
    wire_connection instances aliases (id, c) s =
        let path = "bridges." <> bridge_id <> ".connections." <> id in
        let (from, errors) = resolve_endpoint bridge_id c.from aliases (path <> ".from") in
        let (to, more) = resolve_endpoint bridge_id c.to aliases (path <> ".to") in
        wire_ends instances id c path from to (add more (add errors (add (name_errors id path) s)))
