-- ===== src/Core/Values.antt =====
-- rust/crates/zf-core/src/types.rs: `check_value` and `validate_value`.
-- What the source pushes onto `errors` is returned. A named type is replaced by its declaration, so
-- the recursion takes fuel: `none` means that it ran out, which `Totality` excludes for a type that
-- `validate_type` accepts.
pub mod Totality
pub mod Flow
use zedflow.Base.{
  ℕ, zero, suc, ◌+◌, String, ◌<>◌, Bool, true, false, not, ◌&&◌, Option, none, some, List, [], ◌∷◌,
  ◌++◌, str_eq, is_some_and,
}
use zedflow.Base.Text.{is_empty, decimal}
use zedflow.Base.Outcome.{Outcome, ok, err}
use zedflow.Base.Maps
use zedflow.Base.Maps.{Map}
use zedflow.Json
use zedflow.Json.{Value, as_str, as_array, as_object}
use zedflow.Core.Diagnostic.{Diagnostic, diagnostic}
use zedflow.Core.Types.{
  DataType, Fields, boolean, number, text, list, record_of, media, named, no_fields, field,
  TypeRegistry, max_depth, or_errors, validate_type,
}

abbrev pub Report : Type 0
Report = Option (List Diagnostic)

-- The reports of two checks in a row.
abbrev pub both : Report → Report → Report
both none r = none
both (some a) none = none
both (some a) (some b) = some (a ++ b)

-- `value.get(key).and_then(Value::as_str)`
abbrev pub text_at : Value → String → Option String
text_at v k = elim (Json.get v k) [ none ↦ none | some w ↦ as_str w ]

-- The arm for `DataType::Media`.
unfoldable pub is_media : String → Value → Bool
unfolding Json.is_object
is_media m v =
    Json.is_object v
    && is_some_and (text_at v "contentRef") (λ s. not (is_empty s))
    && is_some_and (text_at v "mediaType") (λ s. str_eq s m)

-- The loop over the values of a list, from an index on.
unfoldable pub check_items : (Value → String → Report) → List Value → ℕ → String → Report
check_items check [] i path = some []
check_items check (v ∷ vs) i path =
    both (check v (path <> "[" <> decimal i <> "]")) (check_items check vs (i + 1) path)

abbrev pub at_member :
    (DataType → Value → String → Report) → DataType → Option Value → String → Report
at_member check t (some v) path = check t v path
at_member check t none path = some (diagnostic "missing_field" path "Required field is absent" ∷ [])

-- The loop over the fields of a record.
unfoldable pub check_members :
    (DataType → Value → String → Report) → Fields → Map Value → String → Report
check_members check no_fields m path = some []
check_members check (field name t rest) m path =
    both (at_member check t (Maps.get m name) (path <> "." <> name))
      (check_members check rest m path)

abbrev pub finish :
    Outcome (List Diagnostic) (Unit {0}) → Report → Option (Outcome (List Diagnostic) (Unit {0}))
finish (err ds) r = some (err ds)
finish (ok _) none = none
finish (ok _) (some ds) = some (or_errors ds)

-- The arm for a named type, by its declaration.
unfoldable pub named_value :
    (DataType → Value → String → Report) → Option DataType → Value → String → Report
named_value check (some t) v path = check t v path
named_value check none v path = some []

-- `debug` is the derived `{:?}` form of a type, which only the text of a message shows.
module _ (debug : DataType → String) where
  unfoldable pub matching : DataType → String → Bool → Report
  matching t path true = some []
  matching t path false =
      some (diagnostic "value_type" path ("Value does not match " <> debug t) ∷ [])

  -- The arms for a list and a record, by the cast of the value.
  unfoldable pub list_value :
      (DataType → Value → String → Report) → DataType → Option (List Value) → String → Report
  unfolding matching check_items
  list_value check t (some vs) path = check_items (check t) vs 0 path
  list_value check t none path = matching (list t) path false

  unfoldable pub record_value :
      (DataType → Value → String → Report) → Fields → Option (Map Value) → String → Report
  unfolding matching check_members
  record_value check fs (some m) path = check_members check fs m path
  record_value check fs none path = matching (record_of fs) path false

  -- The body of `check_value`; `check` is the recursive call.
  unfoldable pub value_node :
      (DataType → Value → String → Report) → TypeRegistry → DataType → Value → String → Report
  unfolding matching named_value list_value record_value
  value_node check types boolean v path = matching boolean path (Json.is_boolean v)
  value_node check types number v path = matching number path (Json.is_number v)
  value_node check types text v path = matching text path (Json.is_string v)
  value_node check types (named name) v path = named_value check (Maps.get types name) v path
  value_node check types (media m) v path = matching (media m) path (is_media m v)
  value_node check types (list t) v path = list_value check t (as_array v) path
  value_node check types (record_of fs) v path = record_value check fs (as_object v) path

  unfoldable pub check_value : ℕ → TypeRegistry → DataType → Value → String → Report
  unfolding value_node
  check_value zero types t v path = none
  check_value (suc fuel) types t v path = value_node (check_value fuel types) types t v path

  -- `validate_value`; an accepted type is at most 65 deep, and `none` is no outcome of it.
  unfoldable pub validate_value :
      DataType → Value → TypeRegistry → Option (Outcome (List Diagnostic) (Unit {0}))
  validate_value t v types =
      finish (validate_type t types) (check_value (suc max_depth) types t v "$")
