-- ===== src/Runtime/Predicates/Typed.antt =====
-- rust/crates/zf-runtime/src/predicates.rs: a condition that was accepted is decided on every state
-- whose values have the types that its comparisons take.
use Prim.Native.Nat.{Ordering, ◌/◌, ◌%◌}
use zedflow.Base.{
  ℕ, ◌+◌, ltb, String, ◌≡◌, refl, subst, Bool, true, false, not, ◌&&◌, ◌||◌, Option, none, some,
  is_some, and→both,
}
use zedflow.Base.Outcome.{Outcome, ok, ◌>>=◌, ◌>>◌, >>-eq-ok, ensure, ensure-eq-ok, or_fail}
use zedflow.Base.Maps.{Map}
use zedflow.Json.{Value, Number, pos_int, neg_int, float, is_number, is_string, is_array}
use zedflow.Flows.Predicate.{
  PredicateOperator, Predicate, Predicates, nothing, also, check_operand, check_group,
  validate_predicate, validate_each,
}
use zedflow.Context.Evaluate.Values.Numbers.{Floats, integer, float_bits, compare_numbers}
use zedflow.Runtime.Predicates.{
  state_field, same_type, number_order, is_gt, is_lt, inclusion, compare_to, compare_field,
  evaluate, evaluate_all, evaluate_any,
}

-- The bits of an `f64` that is no infinity and no NaN: the exponent is not all ones.
unfoldable pub is_finite : ℕ → Bool
is_finite bits = ltb ((bits / 4503599627370496) % 2048) 2047

unfoldable pub finite_number : Value → Bool
finite_number (Value.number (float bits)) = is_finite bits
finite_number _ = true

-- The types that a comparison of a present value takes; the orders take finite numbers.
unfoldable pub takes : PredicateOperator → Value → Value → Bool
takes PredicateOperator.eq actual expected = same_type actual expected
takes PredicateOperator.ne actual expected = same_type actual expected
takes PredicateOperator.contains actual expected =
    (is_string actual && is_string expected) || is_array actual
takes PredicateOperator.in_set actual expected =
    (is_string expected && is_string actual) || is_array expected
takes PredicateOperator.exists actual expected = true
takes _ actual expected = (is_number actual && finite_number actual) && finite_number expected

abbrev pub fits_field : PredicateOperator → Option Value → Option Value → Bool
fits_field operator (some actual) (some expected) = takes operator actual expected
fits_field operator _ _ = true

-- Every comparison of a condition takes, where its field is present.
unfoldable mutual
  pub fits_state : Predicate → Map Value → Bool
  fits_state (Predicate.all ps) state = fit_state ps state
  fits_state (Predicate.any ps) state = fit_state ps state
  fits_state (Predicate.compare key operator value) state =
      fits_field operator (state_field state key) value

  pub fit_state : Predicates → Map Value → Bool
  fit_state nothing state = true
  fit_state (also p ps) state = fits_state p state && fit_state ps state

abbrev pub Decided : Outcome String Bool → Type 0
Decided m = (b : Bool) × (m ≡ ok b)

module _ (value_eq : Value → Value → Bool) (floats : Floats)
    (ordered : (x y : ℕ)
      → is_finite x ≡ true
      → is_finite y ≡ true
      → is_some (floats.partial_cmp x y) ≡ true) where
  found :
      (o : Option Ordering) (e : String) → is_some o ≡ true → (x : Ordering) × (or_fail o e ≡ ok x)
  found (some x) e h = (x, refl)
  found none e h = cc

  numbers_compare :
      (a b : Number)
      → finite_number (Value.number a) ≡ true
      → finite_number (Value.number b) ≡ true
      → is_some (
          compare_numbers floats
            (integer (Value.number a))
            (integer (Value.number b))
            (float_bits (Value.number a))
            (float_bits (Value.number b)))
        ≡ true
  unfolding compare_numbers integer float_bits finite_number
  numbers_compare (pos_int a) (pos_int b) h k = refl
  numbers_compare (pos_int a) (neg_int b) h k = refl
  numbers_compare (pos_int a) (float b) h k = refl
  numbers_compare (neg_int a) (pos_int b) h k = refl
  numbers_compare (neg_int a) (neg_int b) h k = refl
  numbers_compare (neg_int a) (float b) h k = refl
  numbers_compare (float a) (pos_int b) h k = refl
  numbers_compare (float a) (neg_int b) h k = refl
  numbers_compare (float a) (float b) h k = ordered a b h k

  number_of : (v : Value) → is_number v ≡ true → (n : Number) × (v ≡ Value.number n)
  unfolding is_number
  number_of (Value.number n) h = (n, refl)
  number_of Value.null h = cc
  number_of (Value.bool b) h = cc
  number_of (Value.string s) h = cc
  number_of (Value.array vs) h = cc
  number_of (Value.object ms) h = cc

  ordered_numbers :
      (a b : Number) (test : Ordering → Bool)
      → finite_number (Value.number a) ≡ true
      → finite_number (Value.number b) ≡ true
      → Decided (number_order floats (Value.number a) (Value.number b) >>= λ o. ok (test o))
  unfolding number_order is_number
  ordered_numbers a b test h k =
      let (o, e) = found _ "Nombre non fini" (numbers_compare a b h k) in (test o, rw e refl)

  number_ordered :
      (a v : Value) (test : Ordering → Bool)
      → ((is_number a && finite_number a) && finite_number v) ≡ true
      → is_number v ≡ true
      → Decided (number_order floats a v >>= λ o. ok (test o))
  number_ordered a v test h k =
      let (left, there) = and→both (is_number a && finite_number a) (finite_number v) h in
      let (typed, here) = and→both (is_number a) (finite_number a) left in
      let (m, e) = number_of a typed in
      let (n, f) = number_of v k in
      rw (e, f)
        (ordered_numbers m n test (subst (λ w. finite_number w ≡ true) e here)
          (subst (λ w. finite_number w ≡ true) f there))

  guarded : (b : Bool) (e : String) (c : Bool) → b ≡ true → Decided (ensure b e >> ok c)
  guarded true e c h = (c, refl)
  guarded false e c h = cc

  included :
      (whole part : Value)
      → ((is_string whole && is_string part) || is_array whole) ≡ true
      → Decided (inclusion value_eq floats whole part)
  unfolding inclusion is_string is_array
  included (Value.string s) (Value.string t) h = (_, refl)
  included (Value.array vs) v h = (_, refl)
  included (Value.string s) Value.null h = cc
  included (Value.string s) (Value.bool b) h = cc
  included (Value.string s) (Value.number n) h = cc
  included (Value.string s) (Value.array vs) h = cc
  included (Value.string s) (Value.object ms) h = cc
  included Value.null v h = cc
  included (Value.bool b) v h = cc
  included (Value.number n) v h = cc
  included (Value.object ms) v h = cc

  present_decided :
      (key : String) (operator : PredicateOperator) (actual : Value) (value : Option Value)
      → fits_field operator (some actual) value ≡ true
      → check_operand operator value ≡ ok tt
      → Decided (compare_field value_eq floats key operator value (some actual))
  unfolding compare_field compare_to takes check_operand
  present_decided key PredicateOperator.exists actual value fit check = (true, refl)
  present_decided key PredicateOperator.eq actual none fit check = cc
  present_decided key PredicateOperator.ne actual none fit check = cc
  present_decided key PredicateOperator.gt actual none fit check = cc
  present_decided key PredicateOperator.gte actual none fit check = cc
  present_decided key PredicateOperator.lt actual none fit check = cc
  present_decided key PredicateOperator.lte actual none fit check = cc
  present_decided key PredicateOperator.contains actual none fit check = cc
  present_decided key PredicateOperator.in_set actual none fit check = cc
  present_decided key PredicateOperator.eq actual (some v) fit check = guarded _ _ _ fit
  present_decided key PredicateOperator.ne actual (some v) fit check = guarded _ _ _ fit
  present_decided key PredicateOperator.gt actual (some v) fit check =
      number_ordered actual v is_gt fit (ensure-eq-ok (is_number v) _ check)
  present_decided key PredicateOperator.gte actual (some v) fit check =
      number_ordered actual v (λ o. not (is_lt o)) fit (ensure-eq-ok (is_number v) _ check)
  present_decided key PredicateOperator.lt actual (some v) fit check =
      number_ordered actual v is_lt fit (ensure-eq-ok (is_number v) _ check)
  present_decided key PredicateOperator.lte actual (some v) fit check =
      number_ordered actual v (λ o. not (is_gt o)) fit (ensure-eq-ok (is_number v) _ check)
  present_decided key PredicateOperator.contains actual (some v) fit check = included actual v fit
  present_decided key PredicateOperator.in_set actual (some v) fit check = included v actual fit

  field_decided :
      (key : String) (operator : PredicateOperator) (value actual : Option Value)
      → fits_field operator actual value ≡ true
      → check_operand operator value ≡ ok tt
      → Decided (compare_field value_eq floats key operator value actual)
  unfolding compare_field
  field_decided key operator value none fit check = (false, refl)
  field_decided key operator value (some actual) fit check =
      present_decided key operator actual value fit check

  combined :
      (m n : Outcome String Bool) (f : Bool → Bool → Bool)
      → Decided m
      → Decided n
      → Decided (m >>= λ b. n >>= λ c. ok (f b c))
  combined m n f (b, e) (c, e') = (f b c, rw (e, e') refl)

  mutual
    unfolding evaluate validate_predicate fits_state

    decided :
        (depth : ℕ) (p : Predicate) (state : Map Value)
        → validate_predicate depth p ≡ ok tt
        → fits_state p state ≡ true
        → Decided (evaluate value_eq floats p state)
    decided depth (Predicate.all ps) state valid fit =
        all_decided (depth + 1) ps state (>>-eq-ok (check_group depth ps) _ valid).1 fit
    decided depth (Predicate.any ps) state valid fit =
        any_decided (depth + 1) ps state (>>-eq-ok (check_group depth ps) _ valid).1 fit
    decided depth (Predicate.compare key operator value) state valid fit =
        field_decided key operator value (state_field state key) fit
          (>>-eq-ok _ (check_operand operator value) valid).1

    all_decided :
        (depth : ℕ) (ps : Predicates) (state : Map Value)
        → validate_each depth ps ≡ ok tt
        → fit_state ps state ≡ true
        → Decided (evaluate_all value_eq floats ps state)
    all_decided depth nothing state valid fit = (true, refl)
    all_decided depth (also p ps) state valid fit =
        let (first, later) = >>-eq-ok (validate_predicate depth p) _ valid in
        let (here, rest) = and→both (fits_state p state) (fit_state ps state) fit in
        combined _ _ (λ b c. b && c) (decided depth p state first here)
          (all_decided depth ps state later rest)

    any_decided :
        (depth : ℕ) (ps : Predicates) (state : Map Value)
        → validate_each depth ps ≡ ok tt
        → fit_state ps state ≡ true
        → Decided (evaluate_any value_eq floats ps state)
    any_decided depth nothing state valid fit = (false, refl)
    any_decided depth (also p ps) state valid fit =
        let (first, later) = >>-eq-ok (validate_predicate depth p) _ valid in
        let (here, rest) = and→both (fits_state p state) (fit_state ps state) fit in
        combined _ _ (λ b c. b || c) (decided depth p state first here)
          (any_decided depth ps state later rest)

-- A condition that was accepted is decided, with no error, on every state in which each field that it
-- compares is absent or has a type that the comparison takes, and an order compares finite numbers,
-- when `partial_cmp` orders every two finite floats.
pub evaluate-Decided :
    (value_eq : Value → Value → Bool) (floats : Floats) (depth : ℕ) (p : Predicate)
    (state : Map Value)
    → ((x y : ℕ)
        → is_finite x ≡ true
        → is_finite y ≡ true
        → is_some (floats.partial_cmp x y) ≡ true)
    → validate_predicate depth p ≡ ok tt
    → fits_state p state ≡ true
    → Decided (evaluate value_eq floats p state)
evaluate-Decided value_eq floats depth p state ordered valid fit =
    decided value_eq floats ordered depth p state valid fit
