-- ===== src/Compiler/Resolve/Bridges.antt =====
-- rust/crates/zf-compiler/src/resolve.rs: `dependencies` and `can_reuse`. Each takes fuel, and `none`
-- means that it ran out; `Total` shows that it does not.
use zedflow.Base.{
  ℕ, zero, suc, ◌+◌, String, ◌<>◌, Bool, true, false, Option, none, some, List, [], ◌∷◌, ◌++◌, ltb,
  str_eq, if◌then◌else◌, contains, length,
}
use zedflow.Base.Panic.{◌>>=◌, fold_each}
use zedflow.Base.Text.{split_once}
use zedflow.Base.Maps
use zedflow.Base.Maps.{Map}
use zedflow.Base.Sets
use zedflow.Base.Sets.{Set}
use zedflow.Core.Diagnostic.{diagnostic}
use zedflow.Flows.Composition.{BridgeDefinition}
use zedflow.Compiler.Resolve.{Errors, name_errors}

abbrev pub max_depth : ℕ
max_depth = 128

-- The three collections that `dependencies` changes.
pub record Deps : Type 0 where
  pub visiting : Set
  pub active : Set
  pub errors : Errors

abbrev pub fail : String → String → String → Deps → Deps
fail code path message s = record s { errors = s.errors ++ diagnostic code path message ∷ [] }

abbrev pub bridge_path : String → String
bridge_path id = "bridges." <> id

-- The branch on `catalog.bridges.get(id)`; `walk` is the recursive call.
unfoldable pub enter_bridge :
    (String → Deps → Option Deps) → String → Option BridgeDefinition → Deps → Option Deps
enter_bridge walk id none s =
    some (fail "missing_bridge" (bridge_path id) "Required bridge is absent" s)
enter_bridge walk id (some bridge) s = do
  t ←
      fold_each walk bridge.requires
        (record s { errors = s.errors ++ name_errors id (bridge_path id) })
  some (record t { active = Sets.insert t.active id })

abbrev pub leave : String → Deps → Deps
leave id s = record s { visiting = Sets.remove s.visiting id }

unfoldable pub visit_bridge :
    (String → Deps → Option Deps) → Map BridgeDefinition → String → Deps → Option Deps
unfolding enter_bridge
visit_bridge walk bridges id s =
    if contains s.active id
    then some s
    else if contains s.visiting id
    then some (fail "bridge_cycle" (bridge_path id <> ".requires") "Cyclic bridge dependencies" s)
    else let entered = record s { visiting = Sets.insert s.visiting id } in
      if ltb max_depth (length entered.visiting)
      then some (
          leave id (
            fail "composition_depth" (bridge_path id) "Bridge dependency depth exceeds 128"
              entered))
      else enter_bridge walk id (Maps.get bridges id) entered >>= λ t. some (leave id t)

unfoldable pub dependencies : ℕ → Map BridgeDefinition → String → Deps → Option Deps
unfolding visit_bridge
dependencies zero bridges id s = none
dependencies (suc fuel) bridges id s = visit_bridge (dependencies fuel bridges) bridges id s

-- `bridge.requires` of a bridge that may be absent.
abbrev pub requires_of : Option BridgeDefinition → Set
requires_of none = []
requires_of (some bridge) = bridge.requires

-- `pending.extend(ids)`, where the head of `pending` is the top of the stack.
abbrev pub push_all : List String → List String → List String
push_all [] pending = pending
push_all (id ∷ ids) pending = push_all ids (id ∷ pending)

-- The loop of `can_reuse`.
unfoldable pub search_scope : ℕ → Map BridgeDefinition → String → List String → Set → Option Bool
search_scope fuel bridges scope [] seen = some false
search_scope zero bridges scope (next ∷ pending) seen = none
search_scope (suc fuel) bridges scope (next ∷ pending) seen = elim (str_eq next scope) [
  | true ↦ some true
  | false ↦ elim (contains seen next) [
    | true ↦ search_scope fuel bridges scope pending seen
    | false ↦
        search_scope fuel bridges scope (push_all (requires_of (Maps.get bridges next)) pending)
          (Sets.insert seen next)
  ]
]

-- Every stack entry comes from the owner or from one requirement of one bridge.
abbrev pub requirements : Map BridgeDefinition → ℕ
requirements [] = 0
requirements ((id, bridge) ∷ rest) = length bridge.requires + requirements rest

abbrev pub reuse_from : String → Map BridgeDefinition → Option (String × String) → Option Bool
reuse_from owner bridges none = some false
reuse_from owner bridges (some (scope, _)) =
    search_scope (suc (requirements bridges)) bridges scope (owner ∷ []) []

unfoldable pub can_reuse : String → String → Map BridgeDefinition → Option Bool
unfolding search_scope split_once
can_reuse owner target bridges =
    if str_eq target "root" then some true else reuse_from owner bridges (split_once b'/' target)
