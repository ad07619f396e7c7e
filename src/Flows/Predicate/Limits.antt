-- ===== src/Flows/Predicate/Limits.antt =====
-- The limits that a condition which `parse_predicate` lets through keeps to.
use Prim.Native.String.{len}
use zedflow.Base.{
  ℕ, ◌+◌, ◌≤◌, ◌<◌, String, ◌≡◌, subst, true, false, not, ◌&&◌, ◌||◌, Option, none, some, leb, ltb,
  arith, and→both, leb→le, ltb→lt,
}
use zedflow.Base.Text.{is_empty, starts_with}
use zedflow.Base.Outcome.{
  Outcome, ok, ◌>>◌, >>=-eq-ok, >>-eq-ok, ok-injective, ensure, ensure-eq-ok,
}
use zedflow.Json
use zedflow.Json.{Value, Items, Number}
use zedflow.Flows.Predicate.{
  PredicateOperator, Predicate, Predicates, all, any, compare, nothing, also, length, escapes_ok,
  check_operand, check_field, check_group, validate_predicate, validate_each, parse_predicate,
}

-- The operands of the operators: none for `exists`, an array or a text for `in`, a number for the
-- orders, and any value for the others.
pub data IsOperand : PredicateOperator → Option Value → Type 0 where
  no_operand : IsOperand PredicateOperator.exists none
  among_items : {vs : Items} → IsOperand PredicateOperator.in_set (some (Value.array vs))
  among_text : {s : String} → IsOperand PredicateOperator.in_set (some (Value.string s))
  equal_to : {v : Value} → IsOperand PredicateOperator.eq (some v)
  other_than : {v : Value} → IsOperand PredicateOperator.ne (some v)
  containing : {v : Value} → IsOperand PredicateOperator.contains (some v)
  above : {n : Number} → IsOperand PredicateOperator.gt (some (Value.number n))
  at_least : {n : Number} → IsOperand PredicateOperator.gte (some (Value.number n))
  below : {n : Number} → IsOperand PredicateOperator.lt (some (Value.number n))
  at_most : {n : Number} → IsOperand PredicateOperator.lte (some (Value.number n))

-- A condition at a depth: at most 17 levels, groups of 1 to 64 members, and comparisons of a field
-- that is a name or an escaped pointer of at most 1024 bytes, with an operand that the operator takes.
mutual
  pub data IsLimited : ℕ → Predicate → Type 0 where
    all_of :
        {depth : ℕ} {ps : Predicates}
        → depth ≤ 16
        → 0 < length ps
        → length ps ≤ 64
        → AreLimited (depth + 1) ps
        → IsLimited depth (all ps)
    any_of :
        {depth : ℕ} {ps : Predicates}
        → depth ≤ 16
        → 0 < length ps
        → length ps ≤ 64
        → AreLimited (depth + 1) ps
        → IsLimited depth (any ps)
    comparison :
        {depth : ℕ} {field : String} {operator : PredicateOperator} {value : Option Value}
        → depth ≤ 16
        → is_empty field ≡ false
        → len field ≤ 1024
        → (starts_with "/" field ≡ true → escapes_ok field ≡ true)
        → IsOperand operator value
        → IsLimited depth (compare field operator value)

  pub data AreLimited : ℕ → Predicates → Type 0 where
    none_left : {depth : ℕ} → AreLimited depth nothing
    one_more :
        {depth : ℕ} {p : Predicate} {ps : Predicates}
        → IsLimited depth p
        → AreLimited depth ps
        → AreLimited depth (also p ps)

numbered :
    (operator : PredicateOperator) (v : Value)
    → ((n : Number) → IsOperand operator (some (Value.number n)))
    → Json.is_number v ≡ true
    → IsOperand operator (some v)
unfolding Json.is_number
numbered operator (Value.number n) of h = of n
numbered operator Value.null of h = cc
numbered operator (Value.bool b) of h = cc
numbered operator (Value.string s) of h = cc
numbered operator (Value.array vs) of h = cc
numbered operator (Value.object ms) of h = cc

among :
    (v : Value)
    → (Json.is_array v || Json.is_string v) ≡ true
    → IsOperand PredicateOperator.in_set (some v)
unfolding Json.is_array Json.is_string
among (Value.array vs) h = among_items
among (Value.string s) h = among_text
among (Value.number n) h = cc
among Value.null h = cc
among (Value.bool b) h = cc
among (Value.object ms) h = cc

check_operand-IsOperand :
    (operator : PredicateOperator) (value : Option Value)
    → check_operand operator value ≡ ok tt
    → IsOperand operator value
unfolding check_operand
check_operand-IsOperand PredicateOperator.exists none h = no_operand
check_operand-IsOperand PredicateOperator.exists (some v) h = cc
check_operand-IsOperand PredicateOperator.in_set none h = cc
check_operand-IsOperand PredicateOperator.in_set (some v) h = among v (ensure-eq-ok _ _ h)
check_operand-IsOperand PredicateOperator.eq none h = cc
check_operand-IsOperand PredicateOperator.eq (some v) h = equal_to
check_operand-IsOperand PredicateOperator.ne none h = cc
check_operand-IsOperand PredicateOperator.ne (some v) h = other_than
check_operand-IsOperand PredicateOperator.contains none h = cc
check_operand-IsOperand PredicateOperator.contains (some v) h = containing
check_operand-IsOperand PredicateOperator.gt none h = cc
check_operand-IsOperand PredicateOperator.gt (some v) h =
    numbered PredicateOperator.gt v (λ n. above) (ensure-eq-ok _ _ h)
check_operand-IsOperand PredicateOperator.gte none h = cc
check_operand-IsOperand PredicateOperator.gte (some v) h =
    numbered PredicateOperator.gte v (λ n. at_least) (ensure-eq-ok _ _ h)
check_operand-IsOperand PredicateOperator.lt none h = cc
check_operand-IsOperand PredicateOperator.lt (some v) h =
    numbered PredicateOperator.lt v (λ n. below) (ensure-eq-ok _ _ h)
check_operand-IsOperand PredicateOperator.lte none h = cc
check_operand-IsOperand PredicateOperator.lte (some v) h =
    numbered PredicateOperator.lte v (λ n. at_most) (ensure-eq-ok _ _ h)

check_group-eq-ok :
    (depth : ℕ) (ps : Predicates)
    → check_group depth ps ≡ ok tt
    → (depth ≤ 16) × (0 < length ps) × (length ps ≤ 64)
unfolding check_group
check_group-eq-ok depth ps h =
    let (shallow, sized) = >>-eq-ok (ensure (leb depth 16) _) _ h in
    let (some_of, few) =
      and→both (ltb 0 (length ps)) (leb (length ps) 64) (ensure-eq-ok _ _ sized) in
    (leb→le depth 16 (ensure-eq-ok _ _ shallow), ltb→lt 0 (length ps) some_of, leb→le _ 64 few)

check_field-eq-ok :
    (field : String)
    → check_field field ≡ ok tt
    → (is_empty field ≡ false)
      × (len field ≤ 1024)
      × (starts_with "/" field ≡ true → escapes_ok field ≡ true)
unfolding check_field
check_field-eq-ok field h =
    let (sized, escaped) = >>-eq-ok (ensure (not (is_empty field) && leb (len field) 1024) _) _ h in
    let (full, short) =
      and→both (not (is_empty field)) (leb (len field) 1024) (ensure-eq-ok _ _ sized) in
    let fine = ensure-eq-ok (not (starts_with "/" field) || escapes_ok field) _ escaped in
    (ground (arith, full), leb→le (len field) 1024 short, λ k. ground (arith, fine, k))

mutual
  unfolding validate_predicate

  validate_predicate-IsLimited :
      (depth : ℕ) (p : Predicate) → validate_predicate depth p ≡ ok tt → IsLimited depth p
  validate_predicate-IsLimited depth (all ps) h =
      let (group, each) = >>-eq-ok (check_group depth ps) _ h in
      let (shallow, full, few) = check_group-eq-ok depth ps group in
      all_of shallow full few (validate_each-AreLimited (depth + 1) ps each)
  validate_predicate-IsLimited depth (any ps) h =
      let (group, each) = >>-eq-ok (check_group depth ps) _ h in
      let (shallow, full, few) = check_group-eq-ok depth ps group in
      any_of shallow full few (validate_each-AreLimited (depth + 1) ps each)
  validate_predicate-IsLimited depth (compare field operator value) h =
      let (named, operand) = >>-eq-ok (ensure (leb depth 16) _ >> check_field field) _ h in
      let (shallow, fine) = >>-eq-ok (ensure (leb depth 16) _) (check_field field) named in
      let (full, short, escaped) = check_field-eq-ok field fine in
      comparison (leb→le depth 16 (ensure-eq-ok _ _ shallow)) full short escaped
        (check_operand-IsOperand operator value operand)

  validate_each-AreLimited :
      (depth : ℕ) (ps : Predicates) → validate_each depth ps ≡ ok tt → AreLimited depth ps
  validate_each-AreLimited depth nothing h = none_left
  validate_each-AreLimited depth (also p ps) h =
      let (first, rest) = >>-eq-ok (validate_predicate depth p) _ h in
      one_more (validate_predicate-IsLimited depth p first) (validate_each-AreLimited depth ps rest)

-- A condition that `parse_predicate` gives is the one that the document holds, nested at most 17
-- levels deep, with 1 to 64 conditions in each group; each comparison has a field of 1 to 1024 bytes,
-- escaped where it is a pointer, and an operand that its operator takes: none for `exists`, an array or
-- a text for `in`, a number for the orders, and a value for the others.
pub parse_predicate-IsLimited :
    (from_value : Value → Outcome String Predicate) (value : Value) (p : Predicate)
    → parse_predicate from_value value ≡ ok p
    → (from_value value ≡ ok p) × IsLimited 0 p
unfolding parse_predicate
parse_predicate-IsLimited from_value value p h =
    let (read, deserialized, valid) = >>=-eq-ok (from_value value) _ h in
    let (_, checked, same) = >>=-eq-ok (validate_predicate 0 read) (λ _. ok read) valid in
    subst (λ z. (from_value value ≡ ok z) × IsLimited 0 z) (ok-injective read p same)
      (deserialized, validate_predicate-IsLimited 0 read checked)
