-- ===== src/Flows/Predicate.antt =====
-- rust/crates/zf-flows/src/node_contracts.rs: the syntax of typed conditions. The deserializer is a
-- parameter, by what it reads from a document or the text of its error.
pub mod Limits
use Prim.Native.Char.{code}
use Prim.Native.String.{len}
use zedflow.Base.{
  ℕ, suc, ◌+◌, String, ◌<>◌, Bool, true, false, not, ◌&&◌, ◌||◌, Option, leb, ltb, ◌==◌, is_some,
}
use zedflow.Base.Text.{is_empty, starts_with}
use zedflow.Base.Outcome.{Outcome, ok, ◌>>=◌, ◌>>◌, ensure, or_fail}
use zedflow.Json
use zedflow.Json.{Value}

pub data PredicateOperator : Type 0 where
  eq ne gt gte lt lte exists contains in_set : PredicateOperator

mutual
  pub data Predicate : Type 0 where
    all any : Predicates → Predicate
    compare : String → PredicateOperator → Option Value → Predicate

  pub data Predicates : Type 0 where
    nothing : Predicates
    also : Predicate → Predicates → Predicates

abbrev pub length : Predicates → ℕ
length nothing = 0
length (also p ps) = suc (length ps)

-- Each `~` of a JSON pointer is followed by `0` or `1`.
begins_01 : String → Bool
begins_01 String.[] = false
begins_01 (String.◌∷◌ c s) = code c == b'0' || code c == b'1'

unfoldable pub escapes_ok : String → Bool
unfolding begins_01
escapes_ok String.[] = true
escapes_ok (String.◌∷◌ c s) = (not (code c == b'~') || begins_01 s) && escapes_ok s

abbrev pub is_order : PredicateOperator → Bool
is_order gt = true
is_order gte = true
is_order lt = true
is_order lte = true
is_order _ = false

-- The operand that an operator takes.
unfoldable pub check_operand : PredicateOperator → Option Value → Outcome String (Unit {0})
check_operand exists value = ensure (not (is_some value)) "exists ne prend pas de valeur"
check_operand in_set value = or_fail value "Valeur de comparaison requise" >>= λ v.
    ensure (Json.is_array v || Json.is_string v) "in attend un tableau ou une chaîne"
check_operand operator value = or_fail value "Valeur de comparaison requise" >>= λ v.
    ensure (not (is_order operator) || Json.is_number v)
      "Une comparaison numérique requiert un nombre"

unfoldable pub check_field : String → Outcome String (Unit {0})
check_field field =
    ensure (not (is_empty field) && leb (len field) 1024) "Champ de condition invalide"
    >> ensure (not (starts_with "/" field) || escapes_ok field)
        ("JSON Pointer invalide : " <> field)

unfoldable pub check_group : ℕ → Predicates → Outcome String (Unit {0})
check_group depth ps =
    ensure (leb depth 16) "Conditions limitées à 16 niveaux"
    >> ensure (ltb 0 (length ps) && leb (length ps) 64)
        "Un groupe ET/OU doit contenir 1 à 64 conditions"

unfoldable mutual
  pub validate_predicate : ℕ → Predicate → Outcome String (Unit {0})
  validate_predicate depth (all ps) = check_group depth ps >> validate_each (depth + 1) ps
  validate_predicate depth (any ps) = check_group depth ps >> validate_each (depth + 1) ps
  validate_predicate depth (compare field operator value) =
      ensure (leb depth 16) "Conditions limitées à 16 niveaux"
      >> check_field field
      >> check_operand operator value

  pub validate_each : ℕ → Predicates → Outcome String (Unit {0})
  validate_each depth nothing = ok tt
  validate_each depth (also p ps) = validate_predicate depth p >> validate_each depth ps

module _ (from_value : Value → Outcome String Predicate) where
  unfoldable pub parse_predicate : Value → Outcome String Predicate
  parse_predicate value = from_value value >>= λ p. validate_predicate 0 p >>= λ _. ok p
