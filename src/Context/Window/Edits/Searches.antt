-- ===== src/Context/Window/Edits/Searches.antt =====
-- rust/crates/zf-context/src/window.rs, `remove` and `find_mut`: an item that is found is removed or
-- exchanged at its own place.
use zedflow.Base.{String, ◌≡◌, Option, none, some, str_eq, eq_iff, inl, inr, Bool-cases}
use zedflow.Context.Window.{WindowItem, WindowItems, group, fragment, done, entry, item_id}
use zedflow.Context.Window.Patch.{
  first_some, Place, place_inside, place_after, find_mut, Taken, taken_after, taken_inside,
  take_here, take_below, take,
}

-- At one place of the tree, at any depth, an item stands for another; the rest is the same.
pub data Exchanged (w y : WindowItem) : WindowItems → WindowItems → Type 0 where
  exchanged_here : {rest : WindowItems} → Exchanged w y (entry w rest) (entry y rest)
  exchanged_after :
      {v : WindowItem} {rest later : WindowItems}
      → Exchanged w y rest later
      → Exchanged w y (entry v rest) (entry v later)
  exchanged_inside :
      {id label : String} {children changed rest : WindowItems}
      → Exchanged w y children changed
      → Exchanged w y (entry (group id label children) rest) (entry (group id label changed) rest)

-- At one place of the tree an item is gone; the rest is the same, in the same order.
pub data Removed (w : WindowItem) : WindowItems → WindowItems → Type 0 where
  removed_here : {rest : WindowItems} → Removed w (entry w rest) rest
  removed_after :
      {v : WindowItem} {rest later : WindowItems}
      → Removed w rest later
      → Removed w (entry v rest) (entry v later)
  removed_inside :
      {id label : String} {children changed rest : WindowItems}
      → Removed w children changed
      → Removed w (entry (group id label children) rest) (entry (group id label changed) rest)

abbrev pub Drops : String → WindowItems → Option Taken → Type 0
Drops key ws none = Unit
Drops key ws (some (w, rest)) = (item_id w ≡ key) × Removed w ws rest

abbrev pub Writes : String → WindowItems → Option Place → Type 0
Writes key ws none = Unit
Writes key ws (some (w, write)) =
    (item_id w ≡ key) × ((y : WindowItem) → Exchanged w y ws (write y))

module _ (key : String) where
  dropped_after :
      (w : WindowItem) (ws : WindowItems) (o : Option Taken)
      → Drops key ws o
      → Drops key (entry w ws) (taken_after w o)
  dropped_after w ws none h = tt
  dropped_after w ws (some t) h = (h.0, removed_after h.1)

  dropped_inside :
      (id label : String) (children rest : WindowItems) (o : Option Taken)
      → Drops key children o
      → Drops key (entry (group id label children) rest) (taken_inside id label rest o)
  dropped_inside id label children rest none h = tt
  dropped_inside id label children rest (some t) h = (h.0, removed_inside h.1)

  first_dropped :
      (ws : WindowItems) (a b : Option Taken)
      → Drops key ws a
      → Drops key ws b
      → Drops key ws (first_some a b)
  first_dropped ws none b h k = k
  first_dropped ws (some t) b h k = h

  take_here-Drops : (ws : WindowItems) → Drops key ws (take_here key ws)
  unfolding take_here
  take_here-Drops done = tt
  take_here-Drops (entry w rest) = elim (Bool-cases (str_eq (item_id w) key)) [
    | inl e ↦ rw e ((eq_iff (item_id w) key).0 e, removed_here)
    | inr e ↦ rw e (dropped_after w rest (take_here key rest) (take_here-Drops rest))
  ]

  take_below-Drops : (ws : WindowItems) → Drops key ws (take_below key ws)
  unfolding take_below
  take_below-Drops done = tt
  take_below-Drops (entry (group id label children) rest) =
      first_dropped _ _ _
        (dropped_inside id label children rest _
          (first_dropped children _ _ (take_here-Drops children) (take_below-Drops children)))
        (dropped_after (group id label children) rest _ (take_below-Drops rest))
  take_below-Drops (entry (fragment id role format value read) rest) =
      dropped_after (fragment id role format value read) rest _ (take_below-Drops rest)

  pub take-Drops : (ws : WindowItems) → Drops key ws (take key ws)
  unfolding take
  take-Drops ws = first_dropped ws _ _ (take_here-Drops ws) (take_below-Drops ws)

  written_inside :
      (id label : String) (children rest : WindowItems) (o : Option Place)
      → Writes key children o
      → Writes key (entry (group id label children) rest) (place_inside id label rest o)
  written_inside id label children rest none h = tt
  written_inside id label children rest (some p) h = (h.0, λ y. exchanged_inside (h.1 y))

  written_after :
      (w : WindowItem) (rest : WindowItems) (o : Option Place)
      → Writes key rest o
      → Writes key (entry w rest) (place_after w o)
  written_after w rest none h = tt
  written_after w rest (some p) h = (h.0, λ y. exchanged_after (h.1 y))

  first_written :
      (ws : WindowItems) (a b : Option Place)
      → Writes key ws a
      → Writes key ws b
      → Writes key ws (first_some a b)
  first_written ws none b h k = k
  first_written ws (some p) b h k = h

  pub find_mut-Writes : (ws : WindowItems) → Writes key ws (find_mut key ws)
  unfolding find_mut item_id
  find_mut-Writes done = tt
  find_mut-Writes (entry (group id label children) rest) = elim (Bool-cases (str_eq id key)) [
    | inl e ↦ rw e ((eq_iff id key).0 e, λ y. exchanged_here)
    | inr e ↦ rw e (
        first_written _ _ _ (written_inside id label children rest _ (find_mut-Writes children))
          (written_after (group id label children) rest _ (find_mut-Writes rest)))
  ]
  find_mut-Writes (entry (fragment id role format value read) rest) =
      elim (Bool-cases (str_eq id key)) [
        | inl e ↦ rw e ((eq_iff id key).0 e, λ y. exchanged_here)
        | inr e ↦
            rw e (written_after (fragment id role format value read) rest _ (find_mut-Writes rest))
      ]
