-- ===== src/Context/Window/Accounts/Taking.antt =====
-- rust/crates/zf-context/src/window.rs, `remove`: what is taken from a window and what is left.
use zedflow.Base.{
  ◌+◌, String, ◌≡◌, refl, Bool, true, false, Option, none, some, arith, str_eq, eq_iff,
  if◌then◌else◌, count, count-append, inl, inr, Bool-cases,
}
use zedflow.Context.Window.{WindowItem, WindowItems, group, fragment, done, entry, item_id}
use zedflow.Context.Window.Forms.{ids, ids_of}
use zedflow.Context.Window.Patch.{
  first_some, Place, place_inside, place_after, Taken, taken_after, taken_inside, take_here,
  take_below, take,
}

-- The item taken has the key, and the identifiers are shared out between it and the rest.
abbrev pub Splits : String → WindowItems → Option Taken → Type 0
Splits key ws none = Unit
Splits key ws (some (w, rest)) =
    (item_id w ≡ key) × ((x : String) → count x (ids ws) ≡ count x (ids_of w) + count x (ids rest))

pub first_some-eq-none {ℓ} :
    {A : Type ℓ} (a b : Option A) → first_some a b ≡ none → (a ≡ none) × (b ≡ none)
first_some-eq-none none b h = (refl, h)
first_some-eq-none (some x) b h = cc

pub if-some-eq-none {ℓ} :
    {A : Type ℓ} (t : Bool) (a : A) (o : Option A)
    → (if t then some a else o) ≡ none
    → (t ≡ false) × (o ≡ none)
if-some-eq-none true a o h = cc
if-some-eq-none false a o h = (refl, h)

taken_after-eq-none : (w : WindowItem) (o : Option Taken) → taken_after w o ≡ none → o ≡ none
taken_after-eq-none w none h = refl
taken_after-eq-none w (some t) h = cc

taken_inside-eq-none :
    (id label : String) (rest : WindowItems) (o : Option Taken)
    → taken_inside id label rest o ≡ none
    → o ≡ none
taken_inside-eq-none id label rest none h = refl
taken_inside-eq-none id label rest (some t) h = cc

pub place_after-eq-none : (w : WindowItem) (o : Option Place) → place_after w o ≡ none → o ≡ none
place_after-eq-none w none h = refl
place_after-eq-none w (some t) h = cc

pub place_inside-eq-none :
    (id label : String) (rest : WindowItems) (o : Option Place)
    → place_inside id label rest o ≡ none
    → o ≡ none
place_inside-eq-none id label rest none h = refl
place_inside-eq-none id label rest (some t) h = cc

module _ (key : String) where
  taken_after-Splits :
      (w : WindowItem) (ws : WindowItems) (o : Option Taken)
      → Splits key ws o
      → Splits key (entry w ws) (taken_after w o)
  unfolding ids
  taken_after-Splits w ws none h = tt
  taken_after-Splits w ws (some (found, rest)) h = (
    h.0,
    λ x.
        omega
          (arith, h.1 x, count-append x (ids_of w) (ids ws), count-append x (ids_of w) (ids rest)),
  )

  taken_inside-Splits :
      (id label : String) (children rest : WindowItems) (o : Option Taken)
      → Splits key children o
      → Splits key (entry (group id label children) rest) (taken_inside id label rest o)
  unfolding ids
  taken_inside-Splits id label children rest none h = tt
  taken_inside-Splits id label children rest (some (found, left)) h = (
    h.0,
    λ x. omega (
      arith,
      h.1 x,
      count-append x (ids children) (ids rest),
      count-append x (ids left) (ids rest),
    ),
  )

  first_some-Splits :
      (ws : WindowItems) (a b : Option Taken)
      → Splits key ws a
      → Splits key ws b
      → Splits key ws (first_some a b)
  first_some-Splits ws none b h k = k
  first_some-Splits ws (some t) b h k = h

  take_here-Splits : (ws : WindowItems) → Splits key ws (take_here key ws)
  unfolding take_here ids
  take_here-Splits done = tt
  take_here-Splits (entry w rest) = elim (Bool-cases (str_eq (item_id w) key)) [
    | inl e ↦ rw e ((eq_iff (item_id w) key).0 e, λ x. count-append x (ids_of w) (ids rest))
    | inr e ↦ rw e (taken_after-Splits w rest (take_here key rest) (take_here-Splits rest))
  ]

  take_below-Splits : (ws : WindowItems) → Splits key ws (take_below key ws)
  unfolding take_below
  take_below-Splits done = tt
  take_below-Splits (entry (group id label children) rest) =
      first_some-Splits _ _ _
        (taken_inside-Splits id label children rest _
          (first_some-Splits children _ _ (take_here-Splits children) (take_below-Splits children)))
        (taken_after-Splits (group id label children) rest _ (take_below-Splits rest))
  take_below-Splits (entry (fragment id role format value read) rest) =
      taken_after-Splits (fragment id role format value read) rest _ (take_below-Splits rest)

  pub take-Splits : (ws : WindowItems) → Splits key ws (take key ws)
  unfolding take
  take-Splits ws = first_some-Splits ws _ _ (take_here-Splits ws) (take_below-Splits ws)

  -- An item that is not found occurs nowhere in the tree.
  pub absent :
      (ws : WindowItems)
      → take_here key ws ≡ none
      → take_below key ws ≡ none
      → count key (ids ws) ≡ 0
  unfolding take_here take_below ids item_id
  absent done h k = refl
  absent (entry (group id label children) rest) h k =
      let (other, h₁) = if-some-eq-none (str_eq id key) _ _ h in
      let (inside, after) = first_some-eq-none (taken_inside id label rest _) _ k in
      let (here, below) =
        first_some-eq-none (take_here key children) (take_below key children)
          (taken_inside-eq-none id label rest _ inside) in
      let first = absent children here below in
      let later =
        absent rest (taken_after-eq-none (group id label children) _ h₁)
          (taken_after-eq-none (group id label children) _ after) in
      rw other (omega (arith, first, later, count-append key (ids children) (ids rest)))
  absent (entry (fragment id role format value read) rest) h k =
      let (other, h₁) = if-some-eq-none (str_eq id key) _ _ h in
      let later =
        absent rest (taken_after-eq-none (fragment id role format value read) _ h₁)
          (taken_after-eq-none (fragment id role format value read) _ k) in
      rw other (omega (arith, later))
