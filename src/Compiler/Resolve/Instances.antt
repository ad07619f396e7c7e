-- ===== src/Compiler/Resolve/Instances.antt =====
-- rust/crates/zf-compiler/src/resolve.rs: `InstanceResolver` and `endpoint`. An index into a map
-- that lacks the key panics, which is `none`; so is the end of the fuel, and `Total` excludes both.
use zedflow.Base.{
  ℕ, zero, suc, String, ◌<>◌, true, Option, none, some, [], ◌∷◌, ◌++◌, ltb, str_eq, if◌then◌else◌,
  contains, length,
}
use zedflow.Base.Panic.{◌>>=◌}
use zedflow.Base.Text.{contains_char, split_once}
use zedflow.Base.Maps
use zedflow.Base.Maps.{Map}
use zedflow.Base.Sets
use zedflow.Base.Sets.{Set}
use zedflow.Core.Diagnostic.{diagnostic}
use zedflow.Flows.Composition.{FlowDefinition, FlowImport, CompositionCatalog, Endpoint, endpoint}
use zedflow.Compiler.Resolve.{FlowInstance, Errors, report}
use zedflow.Compiler.Resolve.Bridges.{max_depth, can_reuse}

-- The fields of `InstanceResolver` that it changes.
pub record Resolver : Type 0 where
  pub aliases : Map String
  pub instances : Map FlowInstance
  pub visiting : Set
  pub errors : Errors

abbrev pub Answer : Type 0
Answer = Option (Option String × Resolver)

abbrev pub refuse : String → String → String → Resolver → Answer
refuse code path message r =
    some (none, record r { errors = r.errors ++ diagnostic code path message ∷ [] })

abbrev pub owner_of : String → String
owner_of alias = elim (split_once b'/' alias) [ none ↦ "" | some (owner, _) ↦ owner ]

-- What follows `self.resolve(target)`.
unfoldable pub check_flow : String → FlowImport → Option String × Resolver → Answer
check_flow alias import (none, r) = some (none, r)
check_flow alias import (some i, r) = Maps.get r.instances i >>= λ found.
    if str_eq found.flow import.flow
    then some (some i, r)
    else refuse "reuse_flow_mismatch" alias "Reused instance has a different flow definition" r

abbrev pub leave : String → Resolver → Resolver
leave alias r = record r { visiting = Sets.remove r.visiting alias }

-- The end of `resolve`, which records the alias of an instance that was found.
unfoldable pub settle : String → Option String × Resolver → Option String × Resolver
settle alias (none, r) = (none, leave alias r)
settle alias (some i, r) =
    (some i, record (leave alias r) { aliases = Maps.insert r.aliases alias i })

module _ (catalog : CompositionCatalog) (imports : Map FlowImport) where
  -- The branch on `import.reuse`; `walk` is the recursive call.
  unfoldable pub resolve_reuse :
      (String → Resolver → Answer)
      → String
      → FlowImport
      → FlowDefinition
      → Option String
      → Resolver
      → Answer
  unfolding check_flow
  resolve_reuse walk alias import definition none r = some (
    some alias,
    record r {
      instances =
          Maps.insert r.instances alias (record { flow = import.flow; definition = definition });
    },
  )
  resolve_reuse walk alias import definition (some target) r =
      can_reuse (owner_of alias) target catalog.bridges >>= λ allowed.
      if allowed
      then walk target r >>= check_flow alias import
      else refuse "reuse_scope" alias
          "Reuse must target this bridge, root, or a declared dependency" r

  unfoldable pub resolve_flow :
      (String → Resolver → Answer) → String → FlowImport → Option FlowDefinition → Resolver → Answer
  unfolding resolve_reuse
  resolve_flow walk alias import none r =
      refuse "missing_flow" alias ("Flow " <> import.flow <> " is absent") r
  resolve_flow walk alias import (some definition) r =
      resolve_reuse walk alias import definition import.reuse r

  unfoldable pub resolve_import :
      (String → Resolver → Answer) → String → Option FlowImport → Resolver → Answer
  unfolding resolve_flow
  resolve_import walk alias none r = refuse "unknown_alias" alias "Instance alias is absent" r
  resolve_import walk alias (some import) r =
      resolve_flow walk alias import (Maps.get catalog.flows import.flow) r

  unfoldable pub resolve_new : (String → Resolver → Answer) → String → Resolver → Answer
  unfolding resolve_import settle
  resolve_new walk alias r =
      if contains r.visiting alias
      then refuse "reuse_cycle" alias "Cyclic instance reuse" r
      else let entered = record r { visiting = Sets.insert r.visiting alias } in
        if ltb max_depth (length entered.visiting)
        then some (
          none,
          leave alias (record entered {
            errors =
                entered.errors
                ++ diagnostic "composition_depth" alias "Instance reuse depth exceeds 128" ∷ [];
          }),
        )
        else resolve_import walk alias (Maps.get imports alias) entered >>= λ answer.
            some (settle alias answer)

  unfoldable pub resolve_known :
      (String → Resolver → Answer) → String → Option String → Resolver → Answer
  unfolding resolve_new
  resolve_known walk alias (some i) r = some (some i, r)
  resolve_known walk alias none r = resolve_new walk alias r

  -- `InstanceResolver::resolve`
  unfoldable pub resolve_alias : ℕ → String → Resolver → Answer
  unfolding resolve_known
  resolve_alias zero alias r = none
  resolve_alias (suc fuel) alias r =
      resolve_known (resolve_alias fuel) alias (Maps.get r.aliases alias) r

abbrev located : String → Endpoint → Option String → Option Endpoint × Errors
located path e (some i) = (some (endpoint i e.port), [])
located path e none =
    (none, report true "unknown_alias" path ("Unknown instance alias: " <> e.instance_name))

-- The function `endpoint`.
unfoldable pub resolve_endpoint : String → Endpoint → Map String → String → Option Endpoint × Errors
resolve_endpoint bridge e aliases path =
    if contains_char b'/' e.instance_name
    then (
      none,
      report true "alias_scope" path
          "Use a local import alias; cross-bridge sharing requires explicit reuse",
    )
    else located path e (
        Maps.get aliases
          (if str_eq e.instance_name "root" then "root" else bridge <> "/" <> e.instance_name))
