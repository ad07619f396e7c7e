-- ===== src/Base/Text.antt =====
-- What the source takes from Rust's `str`: `trim`, `contains(char)`, `split_once(char)`,
-- `strip_prefix`, and the decimal form of a number in `format!`.
pub mod Splits
use Prim.Native.Nat.{ℕ, zero, suc, ◌+◌, ◌/◌, ◌%◌, ◌-◌, ◌*◌, ◌^◌}
use Prim.Native.Char.{Char, code}
use Prim.Native.String.{String, ◌++◌}
use mathlib.Core.Bool.{Bool, true, false, ◌&&◌, ◌||◌}
use mathlib.Core.Option.{Option, none, some}
use mathlib.Core.List.{List, [], ◌∷◌}
use zedflow.Base.Tests.{leb, in_range, ◌==◌, if◌then◌else◌, ltb}

-- `char::is_whitespace`: the code points with the property White_Space.
abbrev is_whitespace : ℕ → Bool
is_whitespace c =
    in_range 9 13 c
    || c == 32
    || c == 0x85
    || c == 0xa0
    || c == 0x1680
    || in_range 0x2000 0x200a c
    || c == 0x2028
    || c == 0x2029
    || c == 0x202f
    || c == 0x205f
    || c == 0x3000

-- `char::is_control`: the code points of the category Cc.
abbrev pub is_control : ℕ → Bool
is_control c = leb c 31 || in_range 0x7f 0x9f c

unfoldable pub is_empty : String → Bool
is_empty String.[] = true
is_empty (String.◌∷◌ c s) = false

-- `s.trim().is_empty()`
unfoldable pub is_blank : String → Bool
is_blank String.[] = true
is_blank (String.◌∷◌ c s) = is_whitespace (code c) && is_blank s

ends_in_space : String → Bool
unfolding is_blank
ends_in_space String.[] = false
ends_in_space (String.◌∷◌ c s) = (is_whitespace (code c) && is_empty s) || ends_in_space s

starts_in_space : String → Bool
starts_in_space String.[] = false
starts_in_space (String.◌∷◌ c s) = is_whitespace (code c)

-- `s.trim() == s`
unfoldable pub is_trimmed : String → Bool
unfolding ends_in_space starts_in_space is_empty
is_trimmed s = if starts_in_space s || ends_in_space s then false else true

-- `s.chars().any(|c| p(c))`
unfoldable pub any_char : (ℕ → Bool) → String → Bool
any_char p String.[] = false
any_char p (String.◌∷◌ c s) = p (code c) || any_char p s

-- `s.contains('x')`
abbrev pub contains_char : ℕ → String → Bool
contains_char x s = any_char (λ c. c == x) s

unfoldable pub cons_fst : Char → Option (String × String) → Option (String × String)
cons_fst c none = none
cons_fst c (some (a, b)) = some (String.◌∷◌ c a, b)

-- `s.split_once('x')`
unfoldable pub split_once : ℕ → String → Option (String × String)
unfolding cons_fst
split_once x String.[] = none
split_once x (String.◌∷◌ c s) =
    if code c == x then some (String.[], s) else cons_fst c (split_once x s)

-- `s.strip_prefix(prefix)`
unfoldable pub strip_prefix : String → String → Option String
strip_prefix String.[] s = some s
strip_prefix (String.◌∷◌ p ps) String.[] = none
strip_prefix (String.◌∷◌ p ps) (String.◌∷◌ c s) =
    if code p == code c then strip_prefix ps s else none

-- `s.starts_with(prefix)`
unfoldable pub starts_with : String → String → Bool
unfolding strip_prefix
starts_with p s = elim (strip_prefix p s) [ none ↦ false | some _ ↦ true ]

digit : ℕ → String
digit zero = "0"
digit (suc zero) = "1"
digit (suc (suc zero)) = "2"
digit (suc (suc (suc zero))) = "3"
digit (suc (suc (suc (suc zero)))) = "4"
digit (suc (suc (suc (suc (suc zero))))) = "5"
digit (suc (suc (suc (suc (suc (suc zero)))))) = "6"
digit (suc (suc (suc (suc (suc (suc (suc zero))))))) = "7"
digit (suc (suc (suc (suc (suc (suc (suc (suc zero)))))))) = "8"
digit _ = "9"

digits : ℕ → ℕ → String
unfolding digit
digits zero n = ""
digits (suc f) n =
    let rest = digits f (n / 10) in if leb n 9 then digit n else rest ++ digit (n % 10)

-- `format!("{n}")`; a number has at most as many digits as `n + 1`.
unfoldable pub decimal : ℕ → String
unfolding digits
decimal n = digits (suc n) n

last_split : Bool → Char → String → Option (String × String) → Option (String × String)
last_split here c s (some (a, b)) = some (String.◌∷◌ c a, b)
last_split true c s none = some (String.[], s)
last_split false c s none = none

-- `s.rsplit_once('x')`
unfoldable pub rsplit_once : ℕ → String → Option (String × String)
unfolding last_split
rsplit_once x String.[] = none
rsplit_once x (String.◌∷◌ c s) = last_split (code c == x) c s (rsplit_once x s)

-- `c.len_utf8()`
abbrev utf8_size : ℕ → ℕ
utf8_size c = if leb c 0x7f then 1 else if leb c 0x7ff then 2 else if leb c 0xffff then 3 else 4

-- `s.len()`
unfoldable pub utf8_len : String → ℕ
utf8_len String.[] = 0
utf8_len (String.◌∷◌ c s) = utf8_size (code c) + utf8_len s

-- `s.chars().take(n)`, which is `&s[..end]` for the `n`-th of `s.char_indices()`
unfoldable pub take_chars : ℕ → String → String
take_chars zero s = String.[]
take_chars (suc n) String.[] = String.[]
take_chars (suc n) (String.◌∷◌ c s) = String.◌∷◌ c (take_chars n s)

unfoldable pub here_or : Option String → Option (String × String) → Option (String × String)
here_or none later = later
here_or (some rest) later = some (String.[], rest)

-- `s.find(text)`, as the parts before and after the first occurrence
unfoldable pub split_at : String → String → Option (String × String)
unfolding cons_fst strip_prefix here_or
split_at text String.[] = here_or (strip_prefix text String.[]) none
split_at text (String.◌∷◌ c s) =
    here_or (strip_prefix text (String.◌∷◌ c s)) (cons_fst c (split_at text s))

-- `s.contains(text)`
unfoldable pub contains_text : String → String → Bool
unfolding split_at
contains_text text s = elim (split_at text s) [ none ↦ false | some _ ↦ true ]

consed : Char → List String → List String
consed c [] = String.◌∷◌ c String.[] ∷ []
consed c (s ∷ ss) = String.◌∷◌ c s ∷ ss

-- `s.split('x')`
unfoldable pub split : ℕ → String → List String
unfolding consed
split x String.[] = String.[] ∷ []
split x (String.◌∷◌ c s) =
    let rest = split x s in if code c == x then String.[] ∷ rest else consed c rest

begins_with : ℕ → String → Bool
begins_with x String.[] = false
begins_with x (String.◌∷◌ c s) = code c == x

-- `s.replace("ab", c)` for a pair of characters; the flag says that the first of a pair was met.
unfoldable pub replace_pair : Bool → ℕ → ℕ → String → String → String
unfolding begins_with
replace_pair met a b new String.[] = String.[]
replace_pair true a b new (String.◌∷◌ c s) = new ++ replace_pair false a b new s
replace_pair false a b new (String.◌∷◌ c s) =
    let (paired, single) : String × String =
      (replace_pair true a b new s, replace_pair false a b new s) in
    if code c == a && begins_with b s then paired else String.◌∷◌ c single

-- The digits of a number, after those that were read.
number_from : ℕ → String → Option ℕ
number_from n String.[] = some n
number_from n (String.◌∷◌ c s) =
    let rest = number_from (n * 10 + (code c - 48)) s in
    if in_range 48 57 (code c) then rest else none

digits_of : String → Option ℕ
unfolding number_from
digits_of String.[] = none
digits_of (String.◌∷◌ c s) = number_from 0 (String.◌∷◌ c s)

unsigned : String → Option ℕ
unfolding digits_of
unsigned String.[] = none
unsigned (String.◌∷◌ c s) = if code c == 43 then digits_of s else digits_of (String.◌∷◌ c s)

-- `s.parse::<usize>().ok()`
unfoldable pub parse_usize : String → Option ℕ
unfolding unsigned
parse_usize s = elim (unsigned s) [ none ↦ none | some n ↦ if ltb n (2 ^ 64) then some n else none ]
