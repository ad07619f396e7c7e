-- ===== src/Examples/Conditions.antt =====
-- A condition: a group of two comparisons.
use zedflow.Base.Maps
use zedflow.Base.Text.{replace_pair, split, starts_with, is_empty}
use zedflow.Base.{String, ◌≡◌, refl, Bool, false, ◌&&◌, if◌then◌else◌, some, none, [], ◌∷◌}
use Prim.Native.Nat
use zedflow.Base.Maps.{Map}
use zedflow.Context.Evaluate.Values.Numbers.{from_nat}
use zedflow.Context.Evaluate.Values.Numbers.{Floats}
use zedflow.Runtime.Predicates.{state_field, evaluate}
use zedflow.Runtime.Predicates.Typed.{
  is_finite, finite_number, takes, fits_state, Decided, evaluate-Decided,
}
use zedflow.Base.Outcome.{Outcome, ok}
use zedflow.Json.{is_number, Value, string, null, number, object, member, no_members, pos_int}
use zedflow.Flows.Predicate.{
  check_operand, escapes_ok, check_field, check_group, validate_predicate, Predicate, all, any,
  compare, also, nothing, eq, gte, exists, parse_predicate,
}
use zedflow.Flows.Predicate.Limits.{IsLimited, parse_predicate-IsLimited}

abbrev ready : Predicate
ready = all (
    also (compare "/state" eq (some (string "ready"))) (also (compare "owner" exists none) nothing))

abbrev read_ready : Value → Outcome String Predicate
read_ready v = ok ready

parse_predicate-IsLimited_example : (read_ready null ≡ ok ready) × IsLimited 0 ready
unfolding parse_predicate validate_predicate check_group check_field is_empty starts_with escapes_ok
    check_operand
parse_predicate-IsLimited_example = parse_predicate-IsLimited read_ready null ready refl

abbrev finite_floats : Floats
finite_floats = record {
  at_least_max = λ bits. false;
  at_most_min = λ bits. false;
  as_integer = λ bits. from_nat bits;
  fract_positive = λ bits. false;
  fract_negative = λ bits. false;
  partial_cmp = λ a b. if is_finite a && is_finite b then some (Nat.compare a b) else none;
}

abbrev no_value : Value → Value → Bool
no_value a b = false

abbrev counted : Predicate
counted = any (
    also (compare "/data/count" gte (some (number (pos_int 3))))
      (also (compare "owner" exists none) nothing))

abbrev state : Map Value
state = ("data", object (member "count" (number (pos_int 5)) no_members)) ∷ []

evaluate-Decided_example : Decided (evaluate no_value finite_floats counted state)
unfolding validate_predicate check_group check_field is_empty starts_with escapes_ok check_operand
    is_number fits_state state_field split Maps.get replace_pair takes finite_number
evaluate-Decided_example =
    evaluate-Decided no_value finite_floats 0 counted state (λ x y h k. rw (h, k) refl) refl refl
