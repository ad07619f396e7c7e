-- ===== src/Context/Check/Terms/Names.antt =====
-- rust/crates/zf-context/src/context.rs: tests of types and the names of terms, which the arms of
-- `Checker::expression` take.
use zedflow.Base.{String, Bool, true, false, ◌&&◌, Option, none, some, List, [], ◌∷◌, str_eq}
use zedflow.Base.Maps
use zedflow.Base.Maps.{Map, keys}
use zedflow.Base.Sets
use zedflow.Base.Sets.{Set}
use zedflow.Core.Types.{DataType}
use zedflow.Context.Language
use zedflow.Context.Language.{
  ContextExpr, Exprs, NamedExprs, no_exprs, expr, no_named, ContextPredicate, ContextPredicates,
  no_predicates, Comparison, MeasureUnit, LibraryKind, projection, subprogram, ContextFunction,
  ContextLibrary, function_of,
}
use zedflow.Context.Language.Template.{TemplatePart}
use zedflow.Context.Check.{Checker, Check, answer, error_if}

-- Some test of a type that was given, and of one that was found.
unfoldable pub error_at :
    {A : Type 0} → (A → Bool) → Option A → String → String → String → Check (Unit {0})
error_at bad (some a) code path message = error_if (bad a) code path message
error_at bad none code path message = answer tt

abbrev pub is_list : Option DataType → Bool
is_list (some (DataType.list t)) = true
is_list _ = false

abbrev pub is_media_type : Option DataType → Bool
is_media_type (some (DataType.media m)) = true
is_media_type _ = false

abbrev pub is_key : Option DataType → Bool
is_key (some DataType.text) = true
is_key (some DataType.number) = true
is_key _ = false

abbrev pub texts_eq : List String → List String → Bool
texts_eq [] [] = true
texts_eq (a ∷ left) (b ∷ right) = str_eq a b && texts_eq left right
texts_eq _ _ = false

-- The variables of a template's parts, as a set.
unfoldable pub part_names : List TemplatePart → Set
part_names [] = []
part_names (TemplatePart.plain s ∷ ps) = part_names ps
part_names (TemplatePart.variable name ∷ ps) = Sets.insert (part_names ps) name

unfoldable pub argument_names : NamedExprs → List String
argument_names no_named = []
argument_names (Language.named name e es) = name ∷ argument_names es

unfoldable pub restore_type : String → Option DataType → Checker → Checker
restore_type name (some old) c = record c { variables = Maps.insert c.variables name old }
restore_type name none c = record c { variables = Maps.erase c.variables name }

-- The check of a body in which a name has a type, and what `restore_variable` leaves.
unfoldable pub with_variable : {A : Type 0} → String → DataType → Check A → Check A
with_variable name t m before =
    let (a, c) = m (record before { variables = Maps.insert before.variables name t }) in
    (a, restore_type name (Maps.get before.variables name) c)
