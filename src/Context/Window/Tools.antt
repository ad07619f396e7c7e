-- ===== src/Context/Window/Tools.antt =====
-- rust/crates/zf-context/src/window.rs: the tools over windows, their grants and their scope.
use zedflow.Base.{
  String, Bool, true, false, not, ◌&&◌, ◌||◌, ◌≡◌, Option, none, some, List, [], ◌∷◌, map, filter,
  str_eq, if◌then◌else◌, contains, arith, count, ◌+◌, ◌≤◌, eq_iff,
}
use zedflow.Base.Text.{is_blank, rsplit_once}
use zedflow.Base.Outcome.{Outcome, ok, ◌>>◌, ensure}
use zedflow.Base.Sets
use zedflow.Base.Sets.{Set, contains-insert}
use zedflow.Core.Identity.{Permission, Scope, read, write, flow}
use zedflow.Core.Types.{text, list, record_of, no_fields, field}
use zedflow.Context.Fragment.{ContextCapability}

pub record WindowGrant : Type 0 where
  pub alias : String
  pub permission : Permission

unfoldable pub is_tool : String → Bool
is_tool name = str_eq name "context_window_read" || str_eq name "context_window_patch"

-- The records in the order of their keys, as a `BTreeMap` holds them.
unfoldable pub capability : String → Option ContextCapability
unfolding is_tool
capability name =
    if is_tool name
    then some (record {
      id = name;
      input = record_of (
          field "alias" text (
            if str_eq name "context_window_patch"
            then field "expectedRevision" text
                (field "patches" (list (record_of no_fields)) no_fields)
            else no_fields));
      output = record_of (
          field "contentRef" text (
            field "entityId" text
              (field "revision" text (field "window" (record_of no_fields) no_fields))));
    })
    else none

-- The loop of `grants`, over the grants that the configuration holds.
unfoldable pub check_grants : Set → List WindowGrant → Outcome String (Unit {0})
check_grants names [] = ok tt
check_grants names (g ∷ gs) = do
  ensure (not (is_blank g.alias) && not (contains names g.alias))
      "Window grants require unique nonempty aliases"
  check_grants (Sets.insert names g.alias) gs

abbrev is_write : Permission → Bool
is_write read = false
is_write write = true

-- The aliases that `declarations` offers to the read tool and to the patch tool.
unfoldable pub read_aliases : List WindowGrant → List String
read_aliases = map (λ (g : WindowGrant). g.alias)

unfoldable pub write_aliases : List WindowGrant → List String
write_aliases gs =
    map (λ (g : WindowGrant). g.alias) (filter (λ (g : WindowGrant). is_write g.permission) gs)

unfoldable pub agent_scope : String → Scope
agent_scope path = elim (rsplit_once b'/' path) [
  | none ↦ flow "root"
  | some (instance_path, _) ↦ flow instance_path
]

check_grants_once :
    (names : Set) (gs : List WindowGrant)
    → check_grants names gs ≡ ok tt
    → (x : String) → (if contains names x then 1 else 0) + count x (read_aliases gs) ≤ 1
unfolding check_grants read_aliases
check_grants_once names [] h x = ground arith
check_grants_once names (g ∷ gs) h x = ground (
  arith,
  check_grants_once (Sets.insert names g.alias) gs,
  check_grants_once (Sets.insert names g.alias) gs (ground arith) x,
  contains-insert names g.alias x,
  eq_iff g.alias x,
)

count-write_aliases-le :
    (gs : List WindowGrant) (x : String) → count x (write_aliases gs) ≤ count x (read_aliases gs)
unfolding write_aliases read_aliases
count-write_aliases-le [] x = omega arith
count-write_aliases-le (g ∷ gs) x = ground (arith, count-write_aliases-le gs x)

-- Accepted grants name each alias at most once, for the read tool and for the patch tool, and the
-- patch tool is offered no alias that the read tool is not.
pub grants_unique :
    (gs : List WindowGrant)
    → check_grants [] gs ≡ ok tt
    → (x : String)
    → (count x (read_aliases gs) ≤ 1) × (count x (write_aliases gs) ≤ count x (read_aliases gs))
grants_unique gs h x = (omega (arith, check_grants_once [] gs h x), count-write_aliases-le gs x)
