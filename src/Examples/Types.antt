-- ===== src/Examples/Types.antt =====
-- Types and values: a record with a declared name, and the record with fewer fields that it fits.
use zedflow.Base.{String, ◌≡◌, refl, true, some, [], ◌∷◌, is_some, suc}
use zedflow.Base.Outcome.{ok}
use zedflow.Base.Text.{is_blank}
use zedflow.Base.Maps
use zedflow.Json.{
  as_array, is_string, as_object, Value, string, array, object, no_items, item, no_members, member,
}
use zedflow.Core.Types.{
  type_eq, get_field, accepts, DataType, named, record_of, list, text, field, no_fields,
  TypeRegistry, validate_type, check_type, compatible, max_depth,
}
use zedflow.Core.Types.Order.{compatible_trans}
use zedflow.Core.Values.{check_value, validate_value}
use zedflow.Core.Values.Totality.{Resolves, validate_type-Resolves, validate_value_total}
use zedflow.Core.Values.Flow.{validate_value-compatible}

abbrev pub declared : TypeRegistry
declared = ("note", record_of (field "body" text no_fields)) ∷ []

abbrev pub wide : DataType
wide = record_of (field "body" text (field "notes" (list (named "note")) no_fields))

abbrev pub narrow : DataType
narrow = record_of (field "notes" (list (named "note")) no_fields)

validate_type-Resolves_example : Resolves declared (suc max_depth) wide
unfolding validate_type check_type is_blank Maps.get
validate_type-Resolves_example = validate_type-Resolves wide declared refl

abbrev pub debug : DataType → String
debug t = "type"

abbrev note : Value
note = object (member "body" (string "hello") no_members)

abbrev pub letter : Value
letter =
    object (member "body" (string "x") (member "notes" (array (item note no_items)) no_members))

validate_value_total_example : is_some (validate_value debug wide letter declared) ≡ true
validate_value_total_example = validate_value_total debug wide letter declared

validate_value-compatible_example : validate_value debug narrow letter declared ≡ some (ok tt)
unfolding validate_value compatible validate_type check_type is_blank Maps.get accepts get_field
    type_eq check_value as_object is_string as_array
validate_value-compatible_example =
    validate_value-compatible debug wide narrow declared letter refl refl

compatible_trans_example : compatible wide (record_of no_fields) declared ≡ true
unfolding compatible validate_type check_type is_blank Maps.get accepts get_field type_eq
compatible_trans_example = compatible_trans wide narrow (record_of no_fields) declared refl refl
