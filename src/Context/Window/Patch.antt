-- ===== src/Context/Window/Patch.antt =====
-- rust/crates/zf-context/src/window.rs: edits of a prepared window.
-- A mutable reference into the tree is a place: what stands there, and the tree with another item
-- written there.
use zedflow.Base.{
  ℕ, zero, suc, ◌+◌, String, ◌<>◌, ◌&&◌, Option, none, some, List, [], ◌∷◌, leb, ltb, str_eq,
  if◌then◌else◌, length,
}
use zedflow.Base.Text.{decimal}
use zedflow.Base.Outcome.{ok, err, ◌>>=◌, ◌>>◌, ensure, or_fail}
use zedflow.Json.{Value}
use zedflow.Context.Fragment.{FragmentFormat}
use zedflow.Context.Window.{
  WindowItem, WindowItems, group, fragment, done, entry, item_id, PreparedWindow, WindowError,
  invalid, Checked, max_items, validate,
}

pub data WindowPatch : Type 0 where
  remove : String → WindowPatch
  replace : String → WindowItem → WindowPatch
  move : String → Option String → ℕ → WindowPatch
  representation : String → FragmentFormat → Value → WindowPatch

abbrev pub first_some {ℓ} : {A : Type ℓ} → Option A → Option A → Option A
first_some (some a) b = some a
first_some none b = b

abbrev pub Place : Type 0
Place = WindowItem × (WindowItem → WindowItems)

abbrev pub place_inside : String → String → WindowItems → Option Place → Option Place
place_inside id label rest none = none
place_inside id label rest (some (w, write)) = some (w, λ x. entry (group id label (write x)) rest)

abbrev pub place_after : WindowItem → Option Place → Option Place
place_after w none = none
place_after w (some (found, write)) = some (found, λ x. entry w (write x))

-- `find_mut`
unfoldable pub find_mut : String → WindowItems → Option Place
find_mut key done = none
find_mut key (entry (group id label children) rest) =
    if str_eq id key
    then some (group id label children, λ x. entry x rest)
    else first_some (place_inside id label rest (find_mut key children))
        (place_after (group id label children) (find_mut key rest))
find_mut key (entry (fragment id role format value read) rest) =
    if str_eq id key
    then some (fragment id role format value read, λ x. entry x rest)
    else place_after (fragment id role format value read) (find_mut key rest)

-- An item that was taken out, and what is left.
abbrev pub Taken : Type 0
Taken = WindowItem × WindowItems

abbrev pub taken_after : WindowItem → Option Taken → Option Taken
taken_after w none = none
taken_after w (some (found, rest)) = some (found, entry w rest)

abbrev pub taken_inside : String → String → WindowItems → Option Taken → Option Taken
taken_inside id label rest none = none
taken_inside id label rest (some (found, children)) =
    some (found, entry (group id label children) rest)

-- `items.iter().position(…)` and `items.remove(index)`, at the level of the list itself.
unfoldable pub take_here : String → WindowItems → Option Taken
take_here key done = none
take_here key (entry w rest) =
    if str_eq (item_id w) key then some (w, rest) else taken_after w (take_here key rest)

-- The loop over the groups of the level.
unfoldable pub take_below : String → WindowItems → Option Taken
unfolding take_here
take_below key done = none
take_below key (entry (group id label children) rest) =
    first_some
      (taken_inside id label rest (first_some (take_here key children) (take_below key children)))
      (taken_after (group id label children) (take_below key rest))
take_below key (entry (fragment id role format value read) rest) =
    taken_after (fragment id role format value read) (take_below key rest)

-- The function `remove`.
unfoldable pub take : String → WindowItems → Option Taken
unfolding take_below
take key ws = first_some (take_here key ws) (take_below key ws)

unfoldable pub count_entries : WindowItems → ℕ
count_entries done = 0
count_entries (entry w ws) = suc (count_entries ws)

-- `Vec::insert`, within the bounds that the caller has tested.
unfoldable pub insert_at : ℕ → WindowItem → WindowItems → WindowItems
insert_at zero x ws = entry x ws
insert_at (suc i) x done = entry x done
insert_at (suc i) x (entry w ws) = entry w (insert_at i x ws)

abbrev pub unknown : String → WindowError
unknown path = invalid "window_item" path "Unknown window item"

unfoldable pub insert_checked : String → ℕ → WindowItem → WindowItems → Checked WindowItems
unfolding insert_at count_entries
insert_checked path index x target =
    ensure (leb index (count_entries target))
      (invalid "window_index" path "Destination index is outside the group")
    >>= λ _. ok (insert_at index x target)

-- The destination group, if the place found is a group.
unfoldable pub insert_group : String → ℕ → WindowItem → Option Place → Checked WindowItems
unfolding insert_checked
insert_group path index x (some (group id label children, write)) =
    insert_checked path index x children >>= λ inside. ok (write (group id label inside))
insert_group path index x _ =
    err (
      invalid "window_parent" path
        "Destination must be an existing group outside the moved subtree")

unfoldable pub place_moved :
    String → Option String → ℕ → WindowItem → WindowItems → Checked WindowItems
unfolding insert_checked insert_group find_mut
place_moved path (some parent) index x ws = insert_group path index x (find_mut parent ws)
place_moved path none index x ws = insert_checked path index x ws

unfoldable pub represent : String → FragmentFormat → Value → Place → Checked WindowItems
represent path format value (fragment id role _ _ read, write) =
    ok (write (fragment id role format value read))
represent path format value (group id label children, write) =
    err (invalid "window_representation" path "Only fragments have a representation")

-- One round of the loop in `apply_patches`, without the validation that ends it.
unfoldable pub apply_patch : String → WindowPatch → WindowItems → Checked WindowItems
unfolding take find_mut place_moved represent
apply_patch path (remove id) ws = or_fail (take id ws) (unknown path) >>= λ found. ok found.1
apply_patch path (replace id x) ws = do
  ensure (str_eq (item_id x) id)
      (invalid "window_id" path "Replacement must preserve item identity")
  place ← or_fail (find_mut id ws) (unknown path)
  ok (place.1 x)
apply_patch path (representation id format value) ws = do
  place ← or_fail (find_mut id ws) (unknown path)
  represent path format value place
apply_patch path (move id parent index) ws = do
  found ← or_fail (take id ws) (unknown path)
  place_moved path parent index found.0 found.1

module _ (chunks : PreparedWindow → List ℕ) where
  unfoldable pub apply_from : ℕ → List WindowPatch → PreparedWindow → Checked PreparedWindow
  unfolding apply_patch
  apply_from i [] w = ok w
  apply_from i (p ∷ ps) w = do
    items ← apply_patch ("patches[" <> decimal i <> "]") p w.items
    validate chunks (record w { items = items })
    apply_from (i + 1) ps (record w { items = items })

  unfoldable pub apply_patches : List WindowPatch → PreparedWindow → Checked PreparedWindow
  unfolding apply_from
  apply_patches ps w =
      ensure (ltb 0 (length ps) && leb (length ps) max_items)
        (invalid "window_patch" "patches" "Submit 1–4096 explicit window edits")
      >>= λ _. apply_from 0 ps w

  unfoldable pub patched : PreparedWindow → List WindowPatch → Checked PreparedWindow
  unfolding apply_patches validate
  patched w ps = validate chunks w >>= λ _. apply_patches ps w
