-- ===== src/Base/Sets.antt =====
-- `BTreeSet<String>` as the list of its elements in order, which is the order in which the source
-- iterates over it. A `HashSet<&str>` is one too: of it the source observes membership and size only.
use Prim.Native.Nat.{suc, Ordering}
use Prim.Native.String.{String, compare}
use mathlib.Core.Path.{◌≡◌, refl}
use mathlib.Core.Bool.{true, false, ◌||◌}
use mathlib.Core.List.{List, [], ◌∷◌}
use native.Mathlib.Omega.{arith}
use text.Mathlib.Text.{◌==◌ as str_eq}
use text.Mathlib.TextEquality.{eq_iff, path_by_compare}
use zedflow.Base.Tests.{if◌then◌else◌}
use zedflow.Base.Lists.{contains, length}

abbrev pub Set : Type 0
Set = List String

-- `set.insert(x)`; its answer, whether `x` was new, is `not (contains s x)` before the call.
unfoldable pub insert : Set → String → Set
insert [] x = x ∷ []
insert (y ∷ s) x = elim (compare y x) [
  | Ordering.lt ↦ y ∷ insert s x
  | Ordering.eq ↦ y ∷ s
  | Ordering.gt ↦ x ∷ y ∷ s
]

-- `set.remove(x)`
unfoldable pub remove : Set → String → Set
remove [] x = []
remove (y ∷ s) x = if str_eq y x then remove s x else y ∷ remove s x

pub contains-remove :
    (s : Set) (x y : String)
    → contains (remove s x) y ≡ (if str_eq x y then false else contains s y)
unfolding remove
contains-remove [] x y = ground arith
contains-remove (z ∷ s) x y =
    ground (arith, eq_iff x y, eq_iff z x, eq_iff z y, contains-remove s x y)

pub contains-insert :
    (s : Set) (x y : String) → contains (insert s x) y ≡ (str_eq x y || contains s y)
unfolding insert
contains-insert [] x y = ground arith
contains-insert (z ∷ s) x y =
    ground (arith, eq_iff x y, eq_iff z x, eq_iff z y, contains-insert s x y, path_by_compare z x)

-- An insertion keeps the members, and the new one is among them.
pub contains-inserted :
    (s : Set) (x y : String) → contains s y ≡ true → contains (insert s x) y ≡ true
contains-inserted s x y h = ground (arith, contains-insert s x y, h)

pub contains-new : (s : Set) (x : String) → contains (insert s x) x ≡ true
contains-new s x = ground (arith, contains-insert s x x, eq_iff x x)

pub length-insert :
    (s : Set) (x : String) → contains s x ≡ false → length (insert s x) ≡ suc (length s)
unfolding insert
length-insert [] x h = refl
length-insert (y ∷ s) x h = ground (arith, length-insert s x, eq_iff y x, path_by_compare y x)

-- What was entered and is left again leaves the set as it was.
pub remove_absent : (s : Set) (x : String) → contains s x ≡ false → remove s x ≡ s
unfolding remove
remove_absent [] x h = refl
remove_absent (y ∷ s) x h = ground (arith, remove_absent s x)

pub remove-insert : (s : Set) (x : String) → contains s x ≡ false → remove (insert s x) x ≡ s
unfolding remove insert
remove-insert [] x h = ground (arith, eq_iff x x)
remove-insert (y ∷ s) x h =
    ground
      (arith, remove-insert s x, remove_absent s x, eq_iff y x, eq_iff x x, path_by_compare y x)
