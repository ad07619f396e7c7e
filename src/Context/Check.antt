-- ===== src/Context/Check.antt =====
-- rust/crates/zf-context/src/context.rs: the state of the `Checker` of strategies, and the methods
-- that the arms of its recursion share. A method is a function from the state to its result and the
-- state; an `Option` is what the source's `?` leaves a method with.
pub mod Terms
pub mod Recursion
pub mod Blocks
pub mod Grounded
pub mod Sound
pub mod Accepted
pub mod Entries
pub mod Typing
use zedflow.Base.{
  ℕ, zero, suc, ◌+◌, String, ◌<>◌, Bool, true, false, not, ◌&&◌, ◌||◌, Option, none, some, List, [],
  ◌∷◌, ◌++◌, ltb, if◌then◌else◌, length, str_eq, is_some_and, get_or, any,
}
use zedflow.Base.Panic
use zedflow.Base.Outcome.{Outcome, ok, err}
use zedflow.Base.Text.{is_blank, strip_prefix}
use zedflow.Base.Maps
use zedflow.Base.Maps.{Map}
use zedflow.Base.Sets.{Set}
use zedflow.Core.Diagnostic.{Diagnostic, diagnostic}
use zedflow.Core.Types
use zedflow.Core.Types.{
  DataType, Fields, no_fields, field, TypeRegistry, type_eq, validate_type, compatible, is_ok,
  max_depth,
}
use zedflow.Context.Language.{LibraryKind, projection, subprogram, ContextLibrary}

abbrev pub max_nodes : ℕ
max_nodes = 4096

-- What a checker borrows, with the debug text of a type, which only a message shows.
pub record Subject : Type 0 where
  pub requirements : Map DataType
  pub types : TypeRegistry
  pub linked : Bool
  pub library : ContextLibrary
  pub debug : DataType → String

abbrev pub FunctionKey : Type 0
FunctionKey = LibraryKind × String

pub record Checker : Type 0 where
  pub diagnostics : List Diagnostic
  pub ids : Set
  pub nodes : ℕ
  pub variables : Map DataType
  pub functions_done : List FunctionKey
  pub functions_active : List FunctionKey
  pub in_function : Bool

abbrev pub Check : Type 0 → Type 0
Check A = Checker → A × Checker

abbrev pub answer : {A : Type 0} → A → Check A
answer a c = (a, c)

infixl 5 ◌>>=◌
unfoldable pub ◌>>=◌ : {A B : Type 0} → Check A → (A → Check B) → Check B
(m >>= f) c = let (a, d) = m c in f a d

infixl 5 ◌>>◌
abbrev pub ◌>>◌ : {A B : Type 0} → Check A → Check B → Check B
m >> k = m >>= λ _. k

abbrev pub Typing : Type 0
Typing = Check (Option DataType)

-- `?` on the type that a method gives
unfoldable pub typed : {B : Type 0} → Typing → (DataType → Check (Option B)) → Check (Option B)
typed m f = m >>= λ o. elim o [ none ↦ answer none | some t ↦ f t ]

unfoldable pub push_limited : Diagnostic → Checker → Checker
push_limited d c =
    if ltb (length c.diagnostics) 64 then record c { diagnostics = c.diagnostics ++ d ∷ [] } else c

-- `Checker::error`
unfoldable pub error : String → String → String → Check (Unit {0})
error code path message c = (tt, push_limited (diagnostic code path message) c)

-- A test that reports when it fails.
unfoldable pub error_if : Bool → String → String → String → Check (Unit {0})
error_if b code path message = if b then error code path message else answer tt

module _ (given : Subject) where
  unfoldable pub append_one : String → Diagnostic → Checker → Checker
  append_one path e c =
      if not given.linked && str_eq e.code "unknown_type"
      then c
      else push_limited (record e { path = path <> get_or (strip_prefix "$" e.path) e.path }) c

  -- `Checker::append`
  unfoldable pub append : List Diagnostic → String → Checker → Checker
  append [] path c = c
  append (e ∷ es) path c = append es path (append_one path e c)

  -- `Checker::depth`; the number is 65 less the depth, so zero is a depth above 64.
  unfoldable pub depth : ℕ → String → Check Bool
  depth zero path c =
      (error "context_limit" path "Context program exceeds its depth or node limit" >> answer false)
        (record c { nodes = c.nodes + 1 })
  depth (suc left) path c =
      let entered : Checker = record c { nodes = c.nodes + 1 } in
      if ltb max_nodes entered.nodes
      then (error "context_limit" path "Context program exceeds its depth or node limit"
            >> answer false)
          entered
      else (true, entered)

  unfoldable pub appended : Outcome (List Diagnostic) (Unit {0}) → String → Check (Unit {0})
  appended (ok _) path c = (tt, c)
  appended (err es) path c = (tt, append es path c)

  abbrev is_blank_name : DataType → Bool
  is_blank_name (DataType.named name) = is_blank name
  is_blank_name _ = false

  -- `Checker::data_type`
  unfoldable pub data_type : DataType → String → Check (Unit {0})
  data_type t path =
      appended (validate_type t given.types) path
      >> error_if (is_blank_name t) "type_name" path "Named type cannot be empty"

  unfoldable pub resolve_upto : ℕ → DataType → Option DataType
  resolve_upto zero t = none
  resolve_upto (suc n) (DataType.named name) = elim (Maps.get given.types name) [
    | none ↦ none
    | some t ↦ resolve_upto n t
  ]
  resolve_upto (suc n) t = some t

  -- `Checker::resolved`
  unfoldable pub resolved : DataType → Option DataType
  resolved t = resolve_upto (suc max_depth) t

  -- `self.resolved(t) == Some(expected)`
  abbrev pub resolves_to : DataType → DataType → Bool
  resolves_to expected t = is_some_and (resolved t) (λ u. type_eq u expected)

  -- The guard before a comparison of types: outside a linked check both must be known.
  unfoldable pub comparable : DataType → DataType → Bool
  comparable actual expected =
      given.linked
      || (is_ok (validate_type actual given.types) && is_ok (validate_type expected given.types))

  -- `if (linked || both known) && !compatible { error }`
  unfoldable pub mismatched : DataType → DataType → Bool
  mismatched actual expected =
      comparable actual expected && not (compatible actual expected given.types)

  abbrev same_key : FunctionKey → FunctionKey → Bool
  same_key (projection, a) (projection, b) = str_eq a b
  same_key (subprogram, a) (subprogram, b) = str_eq a b
  same_key _ _ = false

  -- `set.contains(&key)`, `set.insert(key)` and `set.remove(&key)` for sets of functions
  abbrev pub has_key : List FunctionKey → FunctionKey → Bool
  has_key keys k = any (λ j. same_key j k) keys

  unfoldable pub without_key : List FunctionKey → FunctionKey → List FunctionKey
  without_key [] k = []
  without_key (j ∷ keys) k =
      let rest = without_key keys k in if same_key j k then rest else j ∷ rest

abbrev pub to_fields : Map DataType → Fields
to_fields [] = no_fields
to_fields ((k, t) ∷ m) = field k t (to_fields m)
