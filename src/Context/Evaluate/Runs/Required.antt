-- ===== src/Context/Evaluate/Runs/Required.antt =====
-- rust/crates/zf-context/src/context.rs: the terms whose resources the strategy requires, which the
-- check of a strategy demands of its program and of the library.
use zedflow.Base.{String, ◌≡◌, some}
use zedflow.Context.Language
use zedflow.Context.Language.{
  ContextExpr, Exprs, NamedExprs, no_exprs, expr, no_named, ContextPredicate, ContextPredicates,
  no_predicates, ContextBlock, ContextBlocks, no_blocks, block, ContextFunction, LibraryKind,
  function_of,
}
use zedflow.Context.Evaluate.State.{Inputs}
use zedflow.Context.Evaluate.Runs.{IsRequired}

module _ (given : Inputs) where
  unfoldable mutual
    pub Requires : ContextExpr → Type 0
    Requires (ContextExpr.construct name value) = Requires value
    Requires (ContextExpr.variable name) = Unit
    Requires (ContextExpr.filter value name condition) = Requires value × RequiresTest condition
    Requires (ContextExpr.sort value name key descending) = Requires value × Requires key
    Requires (ContextExpr.take value count) = Requires value
    Requires (ContextExpr.truncate value count) = Requires value
    Requires (ContextExpr.map value name body) = Requires value × Requires body
    Requires (ContextExpr.group_by value name key) = Requires value × Requires key
    Requires (ContextExpr.dedup value name key) = Requires value × Requires key
    Requires (ContextExpr.record_expr named_fields) = RequiresNamed named_fields
    Requires (ContextExpr.list_expr t es) = RequiresEach es
    Requires (ContextExpr.template whole named_values) = RequiresNamed named_values
    Requires (ContextExpr.to_json value) = Requires value
    Requires (ContextExpr.measure value unit) = Requires value
    Requires (ContextExpr.call catalog name arguments) = RequiresNamed arguments
    Requires (ContextExpr.resource name) = IsRequired given name
    Requires (ContextExpr.field value name) = Requires value
    Requires (ContextExpr.project value names) = Requires value
    Requires (ContextExpr.literal t value) = Unit

    pub RequiresEach : Exprs → Type 0
    RequiresEach no_exprs = Unit
    RequiresEach (expr e es) = Requires e × RequiresEach es

    pub RequiresNamed : NamedExprs → Type 0
    RequiresNamed no_named = Unit
    RequiresNamed (Language.named name e es) = Requires e × RequiresNamed es

    pub RequiresTest : ContextPredicate → Type 0
    RequiresTest (ContextPredicate.compare left operator right) = Requires left × Requires right
    RequiresTest (ContextPredicate.contains value wanted) = Requires value × Requires wanted
    RequiresTest (ContextPredicate.eq left right) = Requires left × Requires right
    RequiresTest (ContextPredicate.present value) = Requires value
    RequiresTest (ContextPredicate.and ps) = RequiresTests ps
    RequiresTest (ContextPredicate.or ps) = RequiresTests ps
    RequiresTest (ContextPredicate.negate p) = RequiresTest p

    pub RequiresTests : ContextPredicates → Type 0
    RequiresTests no_predicates = Unit
    RequiresTests (Language.predicate p ps) = RequiresTest p × RequiresTests ps

  unfoldable mutual
    unfolding Requires RequiresTest

    pub RequiresBlock : ContextBlock → Type 0
    RequiresBlock (ContextBlock.for_each id value name within) =
        Requires value × RequiresBlocks within
    RequiresBlock (ContextBlock.group id label within) = RequiresBlocks within
    RequiresBlock (ContextBlock.emit id role format value) = Requires value
    RequiresBlock (ContextBlock.branch id condition chosen otherwise) =
        RequiresTest condition × RequiresBlocks chosen × RequiresBlocks otherwise

    pub RequiresBlocks : ContextBlocks → Type 0
    RequiresBlocks no_blocks = Unit
    RequiresBlocks (block b bs) = RequiresBlock b × RequiresBlocks bs

  -- The bodies of the library's functions, which name no resource at all, are of this kind too.
  abbrev pub RequiresLibrary : Type 0
  RequiresLibrary =
      (catalog : LibraryKind) (name : String) (function : ContextFunction)
      → function_of given.library catalog name ≡ some function
      → Requires function.body
