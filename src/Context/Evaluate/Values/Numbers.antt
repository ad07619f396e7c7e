-- ===== src/Context/Evaluate/Values/Numbers.antt =====
-- rust/crates/zf-context/src/context.rs: `compare_values` and `int_float`, over the operations on `f64`.
use zedflow.Base.{ℕ, Bool, Option, none, some, if◌then◌else◌}
use zedflow.Base.Panic.{◌>>=◌}
use zedflow.Json.{Value, pos_int, neg_int, float}
use Prim.Native.Nat.{Ordering}
use Prim.Native.Nat
use Prim.Native.String
use zedflow.Context.Evaluate.Values.{ContextValue, as_value}

pub data Integer : Type 0 where
  from_nat below_zero : ℕ → Integer

unfoldable pub compare_integers : Integer → Integer → Ordering
compare_integers (from_nat a) (from_nat b) = Nat.compare a b
compare_integers (from_nat a) (below_zero b) = Ordering.gt
compare_integers (below_zero a) (from_nat b) = Ordering.lt
compare_integers (below_zero a) (below_zero b) = Nat.compare b a

-- `as_i64` or else `as_u64`
unfoldable pub integer : Value → Option Integer
integer (Value.number (pos_int n)) = some (from_nat n)
integer (Value.number (neg_int n)) = some (below_zero n)
integer _ = none

-- `as_f64` of a number that is no integer
unfoldable pub float_bits : Value → Option ℕ
float_bits (Value.number (float bits)) = some bits
float_bits _ = none

unfoldable pub reverse : Ordering → Ordering
reverse Ordering.lt = Ordering.gt
reverse Ordering.eq = Ordering.eq
reverse Ordering.gt = Ordering.lt

abbrev then_with : Ordering → Ordering → Ordering
then_with Ordering.eq o = o
then_with o _ = o

-- The operations on `f64`, by its bits: the comparisons with the bounds of `i128`, `as i128`, the
-- signs of `fract`, and `partial_cmp`.
pub record Floats : Type 0 where
  pub at_least_max : ℕ → Bool
  pub at_most_min : ℕ → Bool
  pub as_integer : ℕ → Integer
  pub fract_positive : ℕ → Bool
  pub fract_negative : ℕ → Bool
  pub partial_cmp : ℕ → ℕ → Option Ordering

module _ (floats : Floats) where
  unfoldable pub int_float : Integer → ℕ → Ordering
  int_float i bits =
      if floats.at_least_max bits
      then Ordering.lt
      else if floats.at_most_min bits
      then Ordering.gt
      else then_with (compare_integers i (floats.as_integer bits)) (
          if floats.fract_positive bits
          then Ordering.lt
          else if floats.fract_negative bits
          then Ordering.gt
          else Ordering.eq)

  unfoldable pub compare_numbers :
      Option Integer → Option Integer → Option ℕ → Option ℕ → Option Ordering
  unfolding int_float
  compare_numbers (some a) (some b) _ _ = some (compare_integers a b)
  compare_numbers (some a) none _ (some y) = some (int_float a y)
  compare_numbers none (some b) (some x) _ = some (reverse (int_float b x))
  compare_numbers none none (some x) (some y) = floats.partial_cmp x y
  compare_numbers _ _ _ _ = none

  unfoldable pub compare_json : Value → Value → Option Ordering
  unfolding compare_numbers
  compare_json (Value.string a) (Value.string b) = some (String.compare a b)
  compare_json (Value.number a) (Value.number b) =
      let (x, y) : Value × Value = (Value.number a, Value.number b) in
      compare_numbers (integer x) (integer y) (float_bits x) (float_bits y)
  compare_json _ _ = none

  -- `compare_values`
  unfoldable pub compare_values : ContextValue → ContextValue → Option Ordering
  unfolding compare_json
  compare_values left right = as_value left >>= λ a. as_value right >>= λ b. compare_json a b
