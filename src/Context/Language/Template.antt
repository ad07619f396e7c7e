-- ===== src/Context/Language/Template.antt =====
-- rust/crates/zf-context/src/context.rs: `valid_id` and `template_parts`.
-- The loop takes fuel, one more than the characters of the template: each turn takes four of them.
pub mod Roundtrip
use zedflow.Base.{
  ℕ, zero, suc, ◌+◌, ◌≤◌, ◌<◌, String, ◌<>◌, ◌≡◌, refl, ap, sym, ◌∙◌, Bool, true, false, not, ◌&&◌,
  ◌||◌, Option, none, some, List, [], ◌∷◌, arith, in_range, leb, ◌==◌, if◌then◌else◌, is_some,
  Bool-cases,
}
use Prim.Native.String.{count as chars}
use zedflow.Base.Text.{is_empty, any_char, utf8_len, split_at}
use zedflow.Base.Outcome.{Outcome, ok, err}

-- `c.is_ascii_alphanumeric() || c == b'-' || c == b'_'`
abbrev id_char : ℕ → Bool
id_char c = in_range 48 57 c || in_range 65 90 c || in_range 97 122 c || c == 45 || c == 95

unfoldable pub valid_id : String → Bool
valid_id id = not (is_empty id) && leb (utf8_len id) 160 && not (any_char (λ c. not (id_char c)) id)

pub data TemplatePart : Type 0 where
  plain variable : String → TemplatePart

abbrev pub Parts : Type 0
Parts = Option (Outcome String (List TemplatePart))

abbrev before : TemplatePart → Parts → Parts
before p none = none
before p (some (err e)) = some (err e)
before p (some (ok ps)) = some (ok (p ∷ ps))

-- The rest of a turn, once the placeholder's end was sought; `rest` is the loop from there on.
unfoldable pub placeholder : (String → Parts) → Option (String × String) → Parts
placeholder rest none = some (err "Unclosed template placeholder")
placeholder rest (some (name, tail)) =
    let later = rest tail in
    if valid_id name
    then before (variable name) later
    else some (err "Template placeholders must be simple variable names")

unfoldable pub turn : (String → Parts) → String → Option (String × String) → Parts
unfolding placeholder
turn rest whole none = some (ok (plain whole ∷ []))
turn rest whole (some (start, tail)) = before (plain start) (placeholder rest (split_at "}}" tail))

unfoldable pub parts_upto : ℕ → String → Parts
unfolding turn
parts_upto zero tail = none
parts_upto (suc fuel) tail = turn (parts_upto fuel) tail (split_at "{{" tail)

unfoldable pub template_parts : String → Parts
unfolding parts_upto
template_parts t = parts_upto (suc (chars t)) t

-- The template that parts stand for.
unfoldable pub written : List TemplatePart → String
written [] = ""
written (plain s ∷ ps) = s <> written ps
written (variable name ∷ ps) = "{{" <> name <> "}}" <> written ps
