-- ===== src/Core/Types.antt =====
-- rust/crates/zf-core/src/types.rs: data types, their validation against a registry of named types,
-- their compatibility, and the check of a JSON value against a type.
-- What the source pushes onto `errors` while it checks a value is returned as a list.
pub mod Order
use zedflow.Base.{
  ℕ, zero, suc, ◌+◌, ◌-◌, String, ◌<>◌, Bool, true, false, ◌&&◌, Option, none, some, List, [], ◌∷◌,
  ◌++◌, str_eq, leb, ltb, ◌==◌, if◌then◌else◌, contains, is_some_and,
}
use zedflow.Base.Text.{is_blank, is_empty, decimal}
use zedflow.Base.Outcome.{Outcome, ok, err, ◌>>=◌}
use zedflow.Base.Maps
use zedflow.Base.Maps.{Map}
use zedflow.Base.Sets
use zedflow.Base.Sets.{Set}
use zedflow.Json
use zedflow.Json.{Value, array, object}
use zedflow.Core.Diagnostic.{Diagnostic, diagnostic}

mutual
  pub data DataType : Type 0 where
    boolean number text : DataType
    list : DataType → DataType
    record_of : Fields → DataType
    media named : String → DataType

  pub data Fields : Type 0 where
    no_fields : Fields
    field : String → DataType → Fields → Fields

abbrev pub TypeRegistry : Type 0
TypeRegistry = Map DataType

-- `fields.get(key)`
unfoldable pub get_field : Fields → String → Option DataType
get_field no_fields k = none
get_field (field j t fs) k = if str_eq j k then some t else get_field fs k

-- The derived `==`.
unfoldable mutual
  pub type_eq : DataType → DataType → Bool
  type_eq boolean boolean = true
  type_eq number number = true
  type_eq text text = true
  type_eq (list s) (list t) = type_eq s t
  type_eq (record_of fs) (record_of gs) = fields_eq fs gs
  type_eq (media a) (media b) = str_eq a b
  type_eq (named a) (named b) = str_eq a b
  type_eq _ _ = false

  pub fields_eq : Fields → Fields → Bool
  fields_eq no_fields no_fields = true
  fields_eq (field j s fs) (field k t gs) = str_eq j k && type_eq s t && fields_eq fs gs
  fields_eq _ _ = false

unfoldable mutual
  -- The inner function of `compatible`.
  pub accepts : DataType → DataType → Bool
  accepts (record_of source) (record_of target) = accepts_fields source target
  accepts (list source) (list target) = accepts source target
  accepts source target = type_eq source target

  -- Each field of the target is one of the source, at an accepted type.
  pub accepts_fields : Fields → Fields → Bool
  accepts_fields source no_fields = true
  accepts_fields source (field k t rest) =
      elim (get_field source k) [ none ↦ false | some s ↦ accepts s t ]
      && accepts_fields source rest

abbrev pub max_visited : ℕ
max_visited = 4096

abbrev pub max_depth : ℕ
max_depth = 64

-- The state that `check_type` threads through its calls.
pub record Walk : Type 0 where
  pub visiting : Set
  pub visited : ℕ
  pub errors : List Diagnostic

abbrev pub push : Diagnostic → Walk → Walk
push d w = record w { errors = w.errors ++ d ∷ [] }

-- The branch `*visited >= 4096`: the first arrival is reported, later ones only return.
unfoldable pub over_budget : String → Walk → Walk
over_budget path w =
    if w.visited == max_visited
    then push (diagnostic "type_complexity" path "Type expansion exceeds 4096 nodes")
        (record w { visited = w.visited + 1 })
    else w

-- The loop over the fields of a record, which stops once the budget is spent.
unfoldable pub check_fields : (DataType → String → Walk → Walk) → Fields → String → Walk → Walk
check_fields check no_fields path w = w
check_fields check (field name t rest) path w =
    let w' = check t (path <> "." <> name) w in
    let later = check_fields check rest path w' in if ltb max_visited w'.visited then w' else later

-- The `match` on the declaration that a name has in the registry.
unfoldable pub follow :
    (DataType → String → Walk → Walk) → String → String → Option DataType → Walk → Walk
follow check name path (some t) w = check t path w
follow check name path none w = push (diagnostic "unknown_type" path ("Unknown type: " <> name)) w

unfoldable pub check_named :
    (DataType → String → Walk → Walk) → TypeRegistry → String → String → Walk → Walk
unfolding follow
check_named check types name path w =
    if is_blank name
    then push (diagnostic "type_name" path "Named type must have an identity") w
    else if contains w.visiting name
    then push (diagnostic "type_cycle" path ("Recursive type: " <> name)) w
    else let entered = record w { visiting = Sets.insert w.visiting name } in
      let left = follow check name path (Maps.get types name) entered in
      record left { visiting = Sets.remove left.visiting name }

-- The `match` on the type; `check` is the recursive call at the next depth.
unfoldable pub check_node :
    (DataType → String → Walk → Walk) → TypeRegistry → DataType → String → Walk → Walk
unfolding check_named check_fields
check_node check types (named name) path w = check_named check types name path w
check_node check types (record_of fs) path w = check_fields check fs path w
check_node check types (list t) path w = check t (path <> "[]") w
check_node check types (media m) path w =
    if is_blank m then push (diagnostic "media_type" path "Media type must be specified") w else w
check_node check types _ path w = w

-- The first argument is 65 less the source's `depth`: at depth 65 the guard `depth > 64` holds, which
-- is the clause for zero, so the recursion is structural and needs no fuel.
unfoldable pub check_type : ℕ → TypeRegistry → DataType → String → Walk → Walk
unfolding over_budget check_node
check_type zero types t path w =
    if leb max_visited w.visited
    then over_budget path w
    else push (diagnostic "type_depth" path "Type nesting exceeds 64 levels")
        (record w { visited = w.visited + 1 })
check_type (suc left) types t path w =
    if leb max_visited w.visited
    then over_budget path w
    else check_node (check_type left types) types t path (record w { visited = w.visited + 1 })

abbrev pub fresh : Walk
fresh = record { visiting = []; visited = 0; errors = [] }

abbrev pub or_errors : List Diagnostic → Outcome (List Diagnostic) (Unit {0})
or_errors [] = ok tt
or_errors (d ∷ ds) = err (d ∷ ds)

unfoldable pub validate_type : DataType → TypeRegistry → Outcome (List Diagnostic) (Unit {0})
validate_type t types = or_errors (check_type (suc max_depth) types t "$" fresh).errors

abbrev pub is_ok {ℓ} : {E A : Type ℓ} → Outcome E A → Bool
is_ok (ok a) = true
is_ok (err e) = false

unfoldable pub compatible : DataType → DataType → TypeRegistry → Bool
compatible source target types =
    is_ok (validate_type source types)
    && is_ok (validate_type target types)
    && accepts source target
