-- ===== src/Context/Language.antt =====
-- rust/crates/zf-context/src/context.rs and context_library.rs: the syntax of strategies.
-- A `Vec` or a `BTreeMap` of terms is a list type of the same mutual block; named terms stand in
-- the order of their names, which is the order in which the source visits them.
pub mod Template
pub mod Types
use zedflow.Base.{
  ℕ, String, ◌<>◌, Bool, true, false, Option, none, some, List, [], ◌∷◌, ◌++◌, is_some_and, not,
  if◌then◌else◌,
}
use zedflow.Base.Outcome.{Outcome, ok, err}
use zedflow.Base.Maps
use zedflow.Base.Maps.{Map}
use zedflow.Base.Sets
use zedflow.Base.Sets.{Set}
use zedflow.Json.{Value}
use zedflow.Core.Diagnostic.{Diagnostic, diagnostic}
use zedflow.Core.Types.{DataType, TypeRegistry, type_eq}
use zedflow.Context.Fragment.{FragmentRole, FragmentFormat, ContextCapability}

pub data Comparison : Type 0 where
  lt lte gt gte ne : Comparison

pub data MeasureUnit : Type 0 where
  bytes entries media : MeasureUnit

pub data LibraryKind : Type 0 where
  projection subprogram : LibraryKind

mutual
  pub data ContextExpr : Type 0 where
    construct : String → ContextExpr → ContextExpr
    variable : String → ContextExpr
    filter : ContextExpr → String → ContextPredicate → ContextExpr
    sort : ContextExpr → String → ContextExpr → Bool → ContextExpr
    take truncate : ContextExpr → ℕ → ContextExpr
    map group_by dedup : ContextExpr → String → ContextExpr → ContextExpr
    record_expr : NamedExprs → ContextExpr
    list_expr : DataType → Exprs → ContextExpr
    template : String → NamedExprs → ContextExpr
    to_json : ContextExpr → ContextExpr
    measure : ContextExpr → MeasureUnit → ContextExpr
    call : LibraryKind → String → NamedExprs → ContextExpr
    resource : String → ContextExpr
    field : ContextExpr → String → ContextExpr
    project : ContextExpr → List String → ContextExpr
    literal : DataType → Value → ContextExpr

  pub data Exprs : Type 0 where
    no_exprs : Exprs
    expr : ContextExpr → Exprs → Exprs

  pub data NamedExprs : Type 0 where
    no_named : NamedExprs
    named : String → ContextExpr → NamedExprs → NamedExprs

  pub data ContextPredicate : Type 0 where
    compare : ContextExpr → Comparison → ContextExpr → ContextPredicate
    contains eq : ContextExpr → ContextExpr → ContextPredicate
    present : ContextExpr → ContextPredicate
    and or : ContextPredicates → ContextPredicate
    negate : ContextPredicate → ContextPredicate

  pub data ContextPredicates : Type 0 where
    no_predicates : ContextPredicates
    predicate : ContextPredicate → ContextPredicates → ContextPredicates

mutual
  pub data ContextBlock : Type 0 where
    for_each : String → ContextExpr → String → ContextBlocks → ContextBlock
    group : String → String → ContextBlocks → ContextBlock
    emit : String → FragmentRole → FragmentFormat → ContextExpr → ContextBlock
    branch : String → ContextPredicate → ContextBlocks → ContextBlocks → ContextBlock

  pub data ContextBlocks : Type 0 where
    no_blocks : ContextBlocks
    block : ContextBlock → ContextBlocks → ContextBlocks

-- `ContextBlock::id`
unfoldable pub block_id : ContextBlock → String
block_id (for_each id _ _ _) = id
block_id (group id _ _) = id
block_id (emit id _ _ _) = id
block_id (branch id _ _ _) = id

-- The inner function `block_ids` of `evaluate_with_limits`.
unfoldable mutual
  block_id_of : ContextBlock → Set → Set
  block_id_of (group id label within) ids = block_ids within (Sets.insert ids id)
  block_id_of (for_each id value name within) ids = block_ids within (Sets.insert ids id)
  block_id_of (branch id condition chosen otherwise) ids =
      block_ids otherwise (block_ids chosen (Sets.insert ids id))
  block_id_of (emit id role format value) ids = Sets.insert ids id

  pub block_ids : ContextBlocks → Set → Set
  block_ids no_blocks ids = ids
  block_ids (block b bs) ids = block_ids bs (block_id_of b ids)

pub record ContextFunction : Type 0 where
  pub parameters : Map DataType
  pub output : DataType
  pub body : ContextExpr

pub record ContextLibrary : Type 0 where
  pub projections : Map ContextFunction
  pub subprograms : Map ContextFunction

-- `ContextLibrary::get`
unfoldable pub function_of : ContextLibrary → LibraryKind → String → Option ContextFunction
function_of library projection name = Maps.get library.projections name
function_of library subprogram name = Maps.get library.subprograms name

pub record ContextStrategy : Type 0 where
  pub version : ℕ
  pub id : String
  pub name : String
  pub types : TypeRegistry
  pub requirements : Map DataType
  pub capabilities : List ContextCapability
  pub program : ContextBlocks

-- One declaration of the strategy, added to the types of its scope.
unfoldable pub merge_type :
    String × DataType → TypeRegistry × List Diagnostic → TypeRegistry × List Diagnostic
merge_type (name, t) (types, ds) =
    if is_some_and (Maps.get types name) (λ existing. not (type_eq existing t))
    then (
      types,
      ds
          ++ diagnostic "type_conflict" ("types." <> name)
              "The strategy and its scope define this named type differently"
            ∷ [],
    )
    else (Maps.insert types name t, ds)

unfoldable pub merge_types :
    Map DataType → TypeRegistry × List Diagnostic → TypeRegistry × List Diagnostic
merge_types [] merged = merged
merge_types (declared ∷ rest) merged = merge_types rest (merge_type declared merged)

abbrev pub merged_or_errors :
    TypeRegistry × List Diagnostic → Outcome (List Diagnostic) TypeRegistry
merged_or_errors (types, []) = ok types
merged_or_errors (types, d ∷ ds) = err (d ∷ ds)

unfoldable pub resolved_types :
    ContextStrategy → TypeRegistry → Outcome (List Diagnostic) TypeRegistry
resolved_types strategy external = merged_or_errors (merge_types strategy.types (external, []))
