-- ===== src/Context/Evaluate/Values/Measure.antt =====
-- rust/crates/zf-context/src/context.rs: `measured_bytes` is the size of what is written, when it is
-- within the bound.
use zedflow.Base.{
  ℕ, ◌+◌, ◌≤◌, ◌≡◌, refl, ap, ◌∙◌, Option, none, some, String, List, [], ◌∷◌, arith, leb, sum,
  if◌then◌else◌,
}
use zedflow.Base.Text.{utf8_len}
use zedflow.Json.{Value}
use zedflow.Context.Evaluate.Values.{
  ContextValue, text_of, as_json, count_chunks, measured, measured_bytes,
}

-- The bytes of a text, or those that a serializer writes of another value.
unfoldable pub full_size : (Value → List ℕ) → ContextValue → Option String → ℕ
full_size chunks v (some s) = utf8_len s
full_size chunks v none = sum (chunks (as_json v))

abbrev pub bounded : ℕ → ℕ → Option ℕ
bounded max n = if leb n max then some n else none

counted :
    (max n : ℕ) (sizes : List ℕ) → n ≤ max → count_chunks max n sizes ≡ bounded max (n + sum sizes)
unfolding count_chunks
counted max n [] small = ground (arith, small)
counted max n (size ∷ rest) small = ground (arith, small, counted max (n + size) rest)

measured-size :
    (chunks : Value → List ℕ) (v : ContextValue) (max : ℕ) (o : Option String)
    → measured chunks v max o ≡ bounded max (full_size chunks v o)
unfolding measured full_size
measured-size chunks v max (some s) = refl
measured-size chunks v max none =
    counted max 0 (chunks (as_json v)) (omega arith) ∙ ap (bounded max) (omega arith)

-- A value is measured, chunk by chunk, as the number of its bytes when that is within the bound, and
-- is refused when it is not.
pub measured_bytes-size :
    (chunks : Value → List ℕ) (v : ContextValue) (max : ℕ)
    → measured_bytes chunks v max ≡ bounded max (full_size chunks v (text_of v))
unfolding measured_bytes
measured_bytes-size chunks v max = measured-size chunks v max (text_of v)
