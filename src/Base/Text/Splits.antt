-- ===== src/Base/Text/Splits.antt =====
-- What `strip_prefix` and `find` take apart gives the text again.
use Prim.Native.Char.{Char, code}
use Prim.Native.String.{String, ◌++◌}
use mathlib.Core.Path.{◌≡◌, refl, sym, ◌∙◌}
use mathlib.Core.Option.{Option, none, some}
use native.Mathlib.Omega.{arith}
use text.Mathlib.TextEquality.{Char-path}
use text.Mathlib.TextLemmas.{nil-append, cons-append}
use zedflow.Base.Tests.{if-eq-some, ◌==◌}
use zedflow.Base.Text.{strip_prefix, cons_fst, split_at, here_or}

pub strip_prefix_lem : (p s rest : String) → strip_prefix p s ≡ some rest → s ≡ p ++ rest
unfolding strip_prefix
strip_prefix_lem String.[] s rest h = let same : s ≡ rest = cc in same ∙ sym (nil-append rest)
strip_prefix_lem (String.◌∷◌ p ps) String.[] rest h = cc
strip_prefix_lem (String.◌∷◌ p ps) (String.◌∷◌ c s) rest h =
    let (e, later) = if-eq-some (code p == code c) (strip_prefix ps s) rest h in
    let first = Char-path p c (ground (arith, e)) in
    let tail = strip_prefix_lem ps s rest later in let join = cons-append p ps rest in cc

cons_fst_lem :
    (c : Char) (o : Option (String × String)) (a b : String)
    → cons_fst c o ≡ some (a, b)
    → (a' : String) × (o ≡ some (a', b)) × (a ≡ String.◌∷◌ c a')
unfolding cons_fst
cons_fst_lem c none a b h = cc
cons_fst_lem c (some (a', b')) a b h =
    let joined : ◌≡◌ {A = Option (String × String)} (some (String.◌∷◌ c a', b')) (some (a, b)) =
      h in
    (a', cc, cc)

here_or_lem :
    (text s : String) (o : Option String) (later : Option (String × String)) (a b : String)
    → ((rest : String) → o ≡ some rest → s ≡ text ++ rest)
    → (later ≡ some (a, b) → s ≡ a ++ (text ++ b))
    → here_or o later ≡ some (a, b)
    → s ≡ a ++ (text ++ b)
unfolding here_or
here_or_lem text s none later a b first rest h = rest h
here_or_lem text s (some z) later a b first rest h =
    let joined : ◌≡◌ {A = Option (String × String)} (some ("", z)) (some (a, b)) = h in
    let whole = first z refl in let join = nil-append (text ++ z) in cc

-- The parts around the first occurrence of a text, with the text between them.
pub split_at_lem : (text s a b : String) → split_at text s ≡ some (a, b) → s ≡ a ++ (text ++ b)
unfolding split_at
split_at_lem text String.[] a b =
    here_or_lem text "" (strip_prefix text "") none a b (strip_prefix_lem text "") (λ h. cc)
split_at_lem text (String.◌∷◌ c s) a b =
    here_or_lem text (String.◌∷◌ c s) (strip_prefix text (String.◌∷◌ c s))
      (cons_fst c (split_at text s)) a b (strip_prefix_lem text (String.◌∷◌ c s))
      (λ h.
        let (a', before, whole) = cons_fst_lem c (split_at text s) a b h in
        let rest = split_at_lem text s a' b before in let join = cons-append c a' (text ++ b) in cc)
