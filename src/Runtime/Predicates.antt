-- ===== src/Runtime/Predicates.antt =====
-- rust/crates/zf-runtime/src/predicates.rs: the evaluation of route conditions on a state.
-- The comparison of numbers is the one of zf-context/src/context.rs, which is the same code; the
-- operations on `f64` and the `==` of JSON values are parameters.
pub mod Typed
use Prim.Native.Nat.{Ordering}
use zedflow.Base.{
  ℕ, zero, suc, String, ◌<>◌, Bool, true, false, not, ◌&&◌, ◌||◌, Option, none, some, List, [], ◌∷◌,
  any, leb, ltb, if◌then◌else◌, is_some,
}
use zedflow.Base.Panic
use zedflow.Base.Outcome.{Outcome, ok, err, ◌>>=◌, ◌>>◌, ensure, or_fail}
use zedflow.Base.Text.{
  strip_prefix, starts_with, split, replace_pair, parse_usize, utf8_len, contains_text,
}
use zedflow.Base.Maps
use zedflow.Base.Maps.{Map}
use zedflow.Json
use zedflow.Json.{Value, items, members, is_number}
use zedflow.Flows.Predicate.{PredicateOperator, Predicate, Predicates, nothing, also}
use zedflow.Context.Evaluate.Values.{nth}
use zedflow.Context.Evaluate.Values.Numbers.{Floats, integer, float_bits, compare_numbers}

-- `part.replace("~1", "/").replace("~0", "~")`
unfoldable pub unescape : String → String
unescape part = replace_pair false 126 48 "~" (replace_pair false 126 49 "/" part)

unfoldable pub element : List Value → String → Option Value
element vs part =
    if ltb 1 (utf8_len part) && starts_with "0" part
    then none
    else elim (parse_usize part) [ none ↦ none | some i ↦ nth vs i ]

-- One step of a pointer.
unfoldable pub step_into : Value → String → Option Value
unfolding element
step_into (Value.object ms) part = Maps.get (members ms) part
step_into (Value.array vs) part = element (items vs) part
step_into _ part = none

unfoldable pub follow_parts : Option Value → List String → Option Value
unfolding step_into unescape
follow_parts none parts = none
follow_parts (some v) [] = some v
follow_parts (some v) (part ∷ parts) = follow_parts (step_into v (unescape part)) parts

unfoldable pub pointed : Map Value → List String → Option Value
unfolding follow_parts
pointed state [] = none
pointed state (part ∷ parts) = follow_parts (Maps.get state (unescape part)) parts

-- `field`
unfoldable pub state_field : Map Value → String → Option Value
unfolding pointed
state_field state key = elim (strip_prefix "/" key) [
  | none ↦ Maps.get state key
  | some pointer ↦ pointed state (split 47 pointer)
]

unfoldable pub same_type : Value → Value → Bool
same_type Value.null Value.null = true
same_type (Value.bool _) (Value.bool _) = true
same_type (Value.number _) (Value.number _) = true
same_type (Value.string _) (Value.string _) = true
same_type (Value.array _) (Value.array _) = true
same_type (Value.object _) (Value.object _) = true
same_type _ _ = false

-- `number_order`
unfoldable pub number_order : Floats → Value → Value → Outcome String Ordering
number_order floats left right =
    ensure (is_number left && is_number right)
      "Types incompatibles : comparaison numérique attendue"
    >> or_fail
        (compare_numbers floats (integer left) (integer right) (float_bits left) (float_bits right))
        "Nombre non fini"

abbrev pub is_gt : Ordering → Bool
is_gt Ordering.gt = true
is_gt _ = false

abbrev pub is_lt : Ordering → Bool
is_lt Ordering.lt = true
is_lt _ = false

module _ (value_eq : Value → Value → Bool) (floats : Floats) where
  -- `contains`
  unfoldable pub inclusion : Value → Value → Outcome String Bool
  inclusion (Value.string whole) (Value.string part) = ok (contains_text part whole)
  inclusion (Value.array vs) needle = ok (any (λ v. value_eq v needle) (items vs))
  inclusion _ _ = err "Types incompatibles : inclusion dans un tableau ou une chaîne attendue"

  -- The `match` on the operator for a field that is present.
  unfoldable pub compare_to : String → PredicateOperator → Value → Value → Outcome String Bool
  unfolding inclusion number_order same_type
  compare_to key PredicateOperator.eq actual expected =
      ensure (same_type actual expected)
        ("Types incompatibles pour " <> key <> " : aucune conversion implicite")
      >> ok (value_eq actual expected)
  compare_to key PredicateOperator.ne actual expected =
      ensure (same_type actual expected)
        ("Types incompatibles pour " <> key <> " : aucune conversion implicite")
      >> ok (not (value_eq actual expected))
  compare_to key PredicateOperator.gt actual expected =
      number_order floats actual expected >>= λ o. ok (is_gt o)
  compare_to key PredicateOperator.gte actual expected =
      number_order floats actual expected >>= λ o. ok (not (is_lt o))
  compare_to key PredicateOperator.lt actual expected =
      number_order floats actual expected >>= λ o. ok (is_lt o)
  compare_to key PredicateOperator.lte actual expected =
      number_order floats actual expected >>= λ o. ok (not (is_gt o))
  compare_to key PredicateOperator.contains actual expected = inclusion actual expected
  compare_to key PredicateOperator.in_set actual expected = inclusion expected actual
  compare_to key PredicateOperator.exists actual expected = ok true

  abbrev pub is_exists : PredicateOperator → Bool
  is_exists PredicateOperator.exists = true
  is_exists _ = false

  unfoldable pub compare_field :
      String → PredicateOperator → Option Value → Option Value → Outcome String Bool
  unfolding compare_to
  compare_field key operator expected none = ok false
  compare_field key operator expected (some actual) =
      if is_exists operator
      then ok true
      else or_fail expected "Valeur de comparaison requise" >>= λ e.
          compare_to key operator actual e

  -- `collect::<Result<Vec<_>>>()?`, which stops at the first error, with `all` or `any`
  unfoldable mutual
    unfolding compare_field

    pub evaluate : Predicate → Map Value → Outcome String Bool
    evaluate (Predicate.all ps) state = evaluate_all ps state
    evaluate (Predicate.any ps) state = evaluate_any ps state
    evaluate (Predicate.compare key operator value) state =
        compare_field key operator value (state_field state key)

    pub evaluate_all : Predicates → Map Value → Outcome String Bool
    evaluate_all nothing state = ok true
    evaluate_all (also p ps) state =
        evaluate p state >>= λ b. evaluate_all ps state >>= λ c. ok (b && c)

    pub evaluate_any : Predicates → Map Value → Outcome String Bool
    evaluate_any nothing state = ok false
    evaluate_any (also p ps) state =
        evaluate p state >>= λ b. evaluate_any ps state >>= λ c. ok (b || c)
