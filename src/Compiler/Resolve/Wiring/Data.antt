-- ===== src/Compiler/Resolve/Wiring/Data.antt =====
-- rust/crates/zf-compiler/src/resolve.rs: the data bindings of `resolve`.
use zedflow.Base.{String, ◌<>◌, true, not, ◌&&◌, ◌||◌, Option, none, some, ◌++◌}
use zedflow.Base.Panic.{◌>>=◌}
use zedflow.Base.Maps
use zedflow.Base.Maps.{Map}
use zedflow.Core.Types.{TypeRegistry, compatible}
use zedflow.Flows.Composition.{includes, DataExposure, DataRequirement, Endpoint, DataBinding}
use zedflow.Compiler.Resolve.{FlowInstance, report, name_errors, permission_errors}
use zedflow.Compiler.Resolve.Instances.{resolve_endpoint}
use zedflow.Compiler.Resolve.Wiring.{has_pair, add_pair, Wiring, add, same_permissions, found_in}

module _ (types : TypeRegistry) (bridge_id : String) where
  -- The rest of the round for a binding, once both ends are known.
  unfoldable pub wire_data :
      String
      → DataBinding
      → String
      → Endpoint
      → Endpoint
      → DataExposure
      → DataRequirement
      → Wiring
      → Wiring
  unfolding same_permissions
  wire_data id b path from to source target s = record s {
    errors =
        s.errors
        ++ report (has_pair s.bound to.instance_name to.port) "duplicate_binding" path
            "A dataset requirement has more than one binding"
        ++ report
            (not (includes source.permissions b.permissions)
              || not (same_permissions b.permissions target.permissions))
            "binding_permissions" path
            "Binding must satisfy exactly the declared requirement within the exposure's grants"
        ++ report
            ((b.permissions.read && not (compatible source.data_type target.data_type types))
              || (b.permissions.write && not (compatible target.data_type source.data_type types)))
            "binding_type" path
            "Dataset types are incompatible for the requested read/write directions";
    bound = add_pair s.bound to.instance_name to.port;
    data_bindings = Maps.insert s.data_bindings (bridge_id <> "/" <> id) (record {
      bridge = bridge_id;
      from = from;
      to = to;
      permissions = b.permissions;
      data_type = source.data_type;
    });
  }

  unfoldable pub bind_target :
      String
      → DataBinding
      → String
      → Endpoint
      → Endpoint
      → DataExposure
      → Option DataRequirement
      → Wiring
      → Wiring
  unfolding wire_data
  bind_target id b path from to source none s =
      add (report true "unknown_requirement" (path <> ".to") "Target dataset requirement is absent")
        s
  bind_target id b path from to source (some target) s = wire_data id b path from to source target s

  unfoldable pub bind_source :
      Map FlowInstance
      → String
      → DataBinding
      → String
      → Endpoint
      → Endpoint
      → Option DataExposure
      → Wiring
      → Option Wiring
  unfolding bind_target
  bind_source instances id b path from to none s =
      some
        (add (report true "unknown_exposure" (path <> ".from") "Source dataset is not exposed") s)
  bind_source instances id b path from to (some source) s = do
    found ← found_in instances to
    some (bind_target id b path from to source (Maps.get found.definition.requires to.port) s)

  unfoldable pub bind_ends :
      Map FlowInstance
      → String
      → DataBinding
      → String
      → Option Endpoint
      → Option Endpoint
      → Wiring
      → Option Wiring
  unfolding bind_source
  bind_ends instances id b path (some from) (some to) s = do
    found ← found_in instances from
    bind_source instances id b path from to (Maps.get found.definition.exposed from.port) s
  bind_ends instances id b path _ _ s = some s

  -- One round of the loop over the bindings.
  unfoldable pub wire_binding :
      Map FlowInstance → Map String → String × DataBinding → Wiring → Option Wiring
  unfolding bind_ends
  wire_binding instances aliases (id, b) s =
      let path = "bridges." <> bridge_id <> ".bindings." <> id in
      let (from, errors) = resolve_endpoint bridge_id b.from aliases (path <> ".from") in
      let (to, more) = resolve_endpoint bridge_id b.to aliases (path <> ".to") in
      bind_ends instances id b path from to (
        add more
          (add errors (add (permission_errors b.permissions path) (add (name_errors id path) s))))
