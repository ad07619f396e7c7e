-- ===== src/Context/Window/Accounts/Swapping.antt =====
-- rust/crates/zf-context/src/window.rs, `find_mut`: what an exchange in place keeps, and that both
-- searches find what is there.
use zedflow.Context.Window.Accounts.Taking.{
  first_some-eq-none, if-some-eq-none, place_after-eq-none, place_inside-eq-none, absent,
}
use zedflow.Base.{
  ◌+◌, ◌≤◌, String, ◌≡◌, refl, true, Option, none, some, arith, str_eq, eq_iff, count, count-append,
  inl, inr, Bool-cases,
}
use zedflow.Context.Window.{WindowItem, WindowItems, group, fragment, done, entry, item_id}
use zedflow.Context.Window.Forms.{ids, ids_of}
use zedflow.Context.Window.Patch.{
  first_some, Place, place_inside, place_after, find_mut, take_here, take_below, take,
}

-- Writing another item at a place exchanges the identifiers of the two.
abbrev pub Swaps : String → WindowItems → Option Place → Type 0
Swaps key ws none = Unit
Swaps key ws (some (w, write)) =
    (item_id w ≡ key)
    × ((y : WindowItem) (x : String)
        → count x (ids (write y)) + count x (ids_of w) ≡ count x (ids ws) + count x (ids_of y))
    × ((x : String) → count x (ids_of w) ≤ count x (ids ws))

module _ (key : String) where
  place_inside-Swaps :
      (id label : String) (children rest : WindowItems) (o : Option Place)
      → Swaps key children o
      → Swaps key (entry (group id label children) rest) (place_inside id label rest o)
  unfolding ids
  place_inside-Swaps id label children rest none h = tt
  place_inside-Swaps id label children rest (some (w, write)) h = (
    h.0,
    λ y x. omega (
      arith,
      h.1 y x,
      count-append x (ids children) (ids rest),
      count-append x (ids (write y)) (ids rest),
    ),
    λ x. omega (arith, h.2 x, count-append x (ids children) (ids rest)),
  )

  place_after-Swaps :
      (w : WindowItem) (rest : WindowItems) (o : Option Place)
      → Swaps key rest o
      → Swaps key (entry w rest) (place_after w o)
  unfolding ids
  place_after-Swaps w rest none h = tt
  place_after-Swaps w rest (some (found, write)) h = (
    h.0,
    λ y x. omega (
      arith,
      h.1 y x,
      count-append x (ids_of w) (ids rest),
      count-append x (ids_of w) (ids (write y)),
    ),
    λ x. omega (arith, h.2 x, count-append x (ids_of w) (ids rest)),
  )

  place_here-Swaps :
      (w : WindowItem) (rest : WindowItems)
      → str_eq (item_id w) key ≡ true
      → Swaps key (entry w rest) (some (w, λ x. entry x rest))
  unfolding ids
  place_here-Swaps w rest e = (
    (eq_iff (item_id w) key).0 e,
    λ y x.
        omega (arith, count-append x (ids_of w) (ids rest), count-append x (ids_of y) (ids rest)),
    λ x. omega (arith, count-append x (ids_of w) (ids rest)),
  )

  first_place-Swaps :
      (ws : WindowItems) (a b : Option Place)
      → Swaps key ws a
      → Swaps key ws b
      → Swaps key ws (first_some a b)
  first_place-Swaps ws none b h k = k
  first_place-Swaps ws (some p) b h k = h

  pub find_mut-Swaps : (ws : WindowItems) → Swaps key ws (find_mut key ws)
  unfolding find_mut item_id
  find_mut-Swaps done = tt
  find_mut-Swaps (entry (group id label children) rest) = elim (Bool-cases (str_eq id key)) [
    | inl e ↦ rw e (place_here-Swaps (group id label children) rest e)
    | inr e ↦ rw e (
        first_place-Swaps _ _ _
          (place_inside-Swaps id label children rest _ (find_mut-Swaps children))
          (place_after-Swaps (group id label children) rest _ (find_mut-Swaps rest)))
  ]
  find_mut-Swaps (entry (fragment id role format value read) rest) =
      elim (Bool-cases (str_eq id key)) [
        | inl e ↦ rw e (place_here-Swaps (fragment id role format value read) rest e)
        | inr e ↦
            rw e
              (place_after-Swaps (fragment id role format value read) rest _ (find_mut-Swaps rest))
      ]

  -- A place that is not found is that of no item in the tree.
  pub find_mut_absent : (ws : WindowItems) → find_mut key ws ≡ none → count key (ids ws) ≡ 0
  unfolding find_mut ids
  find_mut_absent done h = refl
  find_mut_absent (entry (group id label children) rest) h =
      let (other, h₁) = if-some-eq-none (str_eq id key) _ _ h in
      let (inside, after) = first_some-eq-none (place_inside id label rest _) _ h₁ in
      let first = find_mut_absent children (place_inside-eq-none id label rest _ inside) in
      let later = find_mut_absent rest (place_after-eq-none (group id label children) _ after) in
      rw other (omega (arith, first, later, count-append key (ids children) (ids rest)))
  find_mut_absent (entry (fragment id role format value read) rest) h =
      let (other, h₁) = if-some-eq-none (str_eq id key) _ _ h in
      let later =
        find_mut_absent rest (place_after-eq-none (fragment id role format value read) _ h₁) in
      rw other (omega (arith, later))

  -- An item that `take` does not find occurs nowhere in the tree.
  pub take_absent : (ws : WindowItems) → take key ws ≡ none → count key (ids ws) ≡ 0
  unfolding take
  take_absent ws h =
      let (here, below) = first_some-eq-none (take_here key ws) (take_below key ws) h in
      absent key ws here below
