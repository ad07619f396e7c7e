-- ===== src/Context/Check/Blocks.antt =====
-- rust/crates/zf-context/src/context.rs: `Checker::blocks`, `check` and the functions that call it.
-- The number is 65 less the source's depth.
use zedflow.Base.{
  ℕ, suc, ◌-◌, String, ◌<>◌, Bool, true, false, not, ◌&&◌, ◌||◌, Option, none, some, List, [], ◌∷◌,
  if◌then◌else◌, contains, ◌==◌, is_some_and,
}
use zedflow.Base.Outcome.{Outcome, ok, err}
use zedflow.Base.Text.{is_blank, decimal}
use zedflow.Base.Maps.{Map, keys}
use zedflow.Base.Sets
use zedflow.Base.Sets.{Set}
use zedflow.Core.Diagnostic.{Diagnostic}
use zedflow.Core.Types.{DataType, TypeRegistry, type_eq, or_errors}
use zedflow.Context.Fragment
use zedflow.Context.Fragment.{
  FragmentRole, FragmentFormat, ContextCapability, is_instruction, is_text,
}
use zedflow.Context.Language.{
  ContextBlock, ContextBlocks, no_blocks, block, block_id, ContextStrategy, ContextLibrary,
  LibraryKind, projection, subprogram, resolved_types,
}
use zedflow.Context.Language.Template.{valid_id}
use zedflow.Context.Check.{
  Subject, Checker, Check, answer, ◌>>=◌, ◌>>◌, error_if, depth, data_type, resolved,
}
use zedflow.Context.Check.Terms.{collection_item}
use zedflow.Context.Check.Terms.Names.{with_variable, is_media_type}
use zedflow.Context.Check.Recursion.{check_expression, check_predicate, check_function}

module _ (given : Subject) where
  abbrev is_record : Option DataType → Bool
  is_record (some (DataType.record_of fs)) = true
  is_record _ = false

  -- The representations that a fragment's type has.
  unfoldable pub representable : FragmentFormat → DataType → Bool
  representable Fragment.text t = type_eq t DataType.text
  representable Fragment.json t = not (is_media_type (some t))
  representable Fragment.media t = is_media_type (some t)
  representable Fragment.adk_messages (DataType.list t) = is_record (resolved given t)
  representable Fragment.adk_messages t = false

  abbrev resolved_type : Option DataType → Option DataType
  resolved_type none = none
  resolved_type (some t) = resolved given t

  unfoldable pub enter_id : String → String → Check (Unit {0})
  enter_id id path c =
      error_if (is_blank id || contains c.ids id) "block_id" path
        "Block identifiers must be nonempty and unique"
        (record c { ids = if is_blank id then c.ids else Sets.insert c.ids id })

  unfoldable pub within_item : Option DataType → String → Check (Unit {0}) → Check (Unit {0})
  within_item none name m = answer tt
  within_item (some t) name m = with_variable name t m

  unfoldable mutual
    pub check_block : ContextBlock → ℕ → String → Check (Unit {0})
    check_block (ContextBlock.for_each id value name body) left path =
        collection_item given (check_expression given left) (check_predicate given left)
          (check_function given left) value name (path <> ".value")
        >>= λ o. within_item o name (check_blocks body 0 left (path <> ".items"))
    check_block (ContextBlock.group id label body) left path =
        error_if (is_blank label) "group_label" path "Group label cannot be empty"
        >> check_blocks body 0 left (path <> ".items")
    check_block (ContextBlock.emit id role format value) left path =
        check_expression given left value (path <> ".value") >>= λ o.
        error_if (is_instruction role && not (is_text format)) "instruction_format" path
          "Instructions must be text fragments"
        >> error_if (is_some_and (resolved_type o) (λ t. not (representable format t)))
            "fragment_type" path "Fragment representation does not match its input type"
    check_block (ContextBlock.branch id condition chosen otherwise) left path =
        check_predicate given left condition (path <> ".condition")
        >> check_blocks chosen 0 left (path <> ".then")
        >> check_blocks otherwise 0 left (path <> ".else")

    -- `Checker::blocks`, from an index on
    pub check_blocks : ContextBlocks → ℕ → ℕ → String → Check (Unit {0})
    check_blocks no_blocks i left path = answer tt
    check_blocks (block b rest) i left path =
        let here = path <> "[" <> decimal i <> "]" in
        depth given left here >>= λ inside.
        if inside
        then enter_id (block_id b) here
          >> check_block b (left - 1) here
          >> check_blocks rest (suc i) left path
        else answer tt

  -- The loops of `check` over the types, the requirements, the capabilities and the library.
  unfoldable pub check_named_types : String → String → String → Map DataType → Check (Unit {0})
  check_named_types prefix code message [] = answer tt
  check_named_types prefix code message ((name, t) ∷ rest) =
      error_if (is_blank name) code (prefix <> name) message
      >> data_type given t (prefix <> name)
      >> check_named_types prefix code message rest

  unfoldable pub check_capabilities : List ContextCapability → ℕ → Set → Check (Unit {0})
  check_capabilities [] i seen = answer tt
  check_capabilities (capability ∷ rest) i seen =
      let path = "capabilities[" <> decimal i <> "]" in
      error_if (is_blank capability.id || contains seen capability.id) "capability_id" path
        "Capability identifiers must be nonempty and unique"
      >> data_type given capability.input (path <> ".input")
      >> data_type given capability.output (path <> ".output")
      >> check_capabilities rest (suc i)
          (if is_blank capability.id then seen else Sets.insert seen capability.id)

  unfoldable pub check_functions : LibraryKind → List String → Check (Unit {0})
  check_functions kind [] = answer tt
  check_functions kind (name ∷ names) =
      check_function given 65 kind name "library" >> check_functions kind names

  -- `check` between the types and the program.
  unfoldable pub check_declarations : ContextStrategy → Check (Unit {0})
  check_declarations strategy =
      error_if (not (strategy.version == 1 || strategy.version == 2)) "context_version" "version"
        "Unsupported context strategy version"
      >> error_if (not (valid_id strategy.id)) "context_id" "id"
          "Use 1–160 ASCII letters, digits, hyphens or underscores"
      >> error_if (is_blank strategy.name) "context_name" "name" "Strategy name cannot be empty"
      >> check_named_types "types." "type_name" "Named type cannot be empty" strategy.types
      >> check_named_types "requirements." "resource_name" "Resource name cannot be empty"
          strategy.requirements
      >> check_capabilities strategy.capabilities 0 []
      >> check_functions projection (keys given.library.projections)
      >> check_functions subprogram (keys given.library.subprograms)

  -- `check`, once the types are resolved
  unfoldable pub check_strategy : ContextStrategy → Check (Unit {0})
  check_strategy strategy =
      check_declarations strategy >> check_blocks strategy.program 0 65 "program"

abbrev pub new_checker : Checker
new_checker = record {
  diagnostics = [];
  ids = [];
  nodes = 0;
  variables = [];
  functions_done = [];
  functions_active = [];
  in_function = false;
}

abbrev pub registry : Option TypeRegistry → TypeRegistry
registry none = []
registry (some types) = types

abbrev pub is_linked : Option TypeRegistry → Bool
is_linked none = false
is_linked (some types) = true

-- What `check` has its checker borrow.
abbrev pub subject_of :
    (DataType → String)
    → ContextStrategy
    → Option TypeRegistry
    → TypeRegistry
    → ContextLibrary
    → Subject
subject_of debug strategy types merged library = record {
  requirements = strategy.requirements;
  types = merged;
  linked = is_linked types;
  library = library;
  debug = debug;
}

-- `check`; the debug text of a type is a parameter.
unfoldable pub check :
    (DataType → String)
    → ContextStrategy
    → Option TypeRegistry
    → ContextLibrary
    → Outcome (List Diagnostic) (Unit {0})
check debug strategy types library = elim (resolved_types strategy (registry types)) [
  | err es ↦ err es
  | ok merged ↦
      let given = subject_of debug strategy types merged library in
      or_errors (check_strategy given strategy new_checker).1.diagnostics
]
