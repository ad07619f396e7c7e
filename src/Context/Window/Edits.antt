-- ===== src/Context/Window/Edits.antt =====
-- rust/crates/zf-context/src/window.rs, `apply_patches`: what each edit does to the tree. An item that
-- is found is exchanged or removed at its own place, and one that is inserted gets its position.
pub mod Searches
use zedflow.Context.Window.Edits.Searches.{
  Exchanged, exchanged_here, Removed, Drops, Writes, take-Drops, find_mut-Writes,
}
use zedflow.Base.{
  ℕ, zero, suc, ◌≤◌, String, ◌≡◌, refl, subst, true, Option, none, some, List, arith, leb, leb→le,
  str_eq, eq_iff, inl, inr, Bool-cases, if◌then◌else◌,
}
use zedflow.Context.Fragment.{FragmentFormat, FragmentRole}
use zedflow.Json.{Value}
use zedflow.Base.Outcome.{
  or_fail, or_fail-eq-ok, ok, >>=-eq-ok, >>-eq-ok, ok-injective, ensure, ensure-eq-ok,
}
use zedflow.Context.Window.{WindowItem, WindowItems, group, fragment, done, entry, item_id}
use zedflow.Context.Window.Patch.{
  first_some, Place, place_inside, place_after, find_mut, Taken, taken_after, taken_inside,
  take_here, take_below, take, count_entries, insert_at, insert_checked, insert_group, place_moved,
  represent, apply_patch, unknown, WindowPatch, remove, replace, move, representation,
}

-- An item is new at a position of a list, before those that stood there and after it.
pub data Inserted (w : WindowItem) : ℕ → WindowItems → WindowItems → Type 0 where
  inserted_here : {rest : WindowItems} → Inserted w 0 rest (entry w rest)
  inserted_after :
      {i : ℕ} {v : WindowItem} {rest later : WindowItems}
      → Inserted w i rest later
      → Inserted w (suc i) (entry v rest) (entry v later)

-- An item is new at a position of the top level or of a group.
abbrev pub Placed : Option String → ℕ → WindowItem → WindowItems → WindowItems → Type 0
Placed none index w ws later = Inserted w index ws later
Placed (some parent) index w ws later =
    (label : String) × (children : WindowItems) × (changed : WindowItems) × Inserted w index
      children changed
    × Exchanged (group parent label children) (group parent label changed) ws later

-- A fragment and the same one, with its role and its sources, in another representation.
pub data Represented (id : String) (format : FragmentFormat) (value : Value)
    : WindowItem → WindowItem → Type 0 where
  represented :
      {role : FragmentRole} {former : FragmentFormat} {old : Value} {read : List String}
      → Represented id format value
          (fragment id role former old read)
          (fragment id role format value read)

-- What an edit that succeeds does to the tree.
abbrev pub Effect : WindowPatch → WindowItems → WindowItems → Type 0
Effect (remove id) ws later = (w : WindowItem) × (item_id w ≡ id) × Removed w ws later
Effect (replace id y) ws later =
    (w : WindowItem) × (item_id w ≡ id) × (item_id y ≡ id) × Exchanged w y ws later
Effect (move id parent index) ws later =
    (w : WindowItem) × (rest : WindowItems) × (item_id w ≡ id)
    × Removed w ws rest
    × Placed parent index w rest later
Effect (representation id format value) ws later =
    (w : WindowItem) × (y : WindowItem) × Represented id format value w y × Exchanged w y ws later

insert_at-Inserted :
    (i : ℕ) (w : WindowItem) (ws : WindowItems)
    → i ≤ count_entries ws
    → Inserted w i ws (insert_at i w ws)
unfolding insert_at count_entries
insert_at-Inserted zero w ws h = inserted_here
insert_at-Inserted (suc i) w done h = absurd (omega (arith, h))
insert_at-Inserted (suc i) w (entry v ws) h =
    inserted_after (insert_at-Inserted i w ws (omega (arith, h)))

insert_checked-Inserted :
    (path : String) (index : ℕ) (w : WindowItem) (ws later : WindowItems)
    → insert_checked path index w ws ≡ ok later
    → Inserted w index ws later
unfolding insert_checked
insert_checked-Inserted path index w ws later e =
    let (tested, inserted) = >>-eq-ok (ensure _ _) (ok (insert_at index w ws)) e in
    rw (← (ok-injective _ later inserted))
      (insert_at-Inserted index w ws (leb→le index (count_entries ws) (ensure-eq-ok _ _ tested)))

insert_group-Placed :
    (path key : String) (index : ℕ) (w : WindowItem) (ws later : WindowItems) (o : Option Place)
    → Writes key ws o
    → insert_group path index w o ≡ ok later
    → Placed (some key) index w ws later
unfolding insert_group item_id
insert_group-Placed path key index w ws later none h e = cc
insert_group-Placed path key index w ws later (some (fragment _ _ _ _ _, write)) h e = cc
insert_group-Placed path key index w ws later (some (group id label children, write)) h e =
    let (changed, inserted, written) =
      >>=-eq-ok (insert_checked path index w children) (λ t. ok (write (group id label t))) e in
    let exchanged : Exchanged (group id label children) (group id label changed) ws later =
      rw (← (ok-injective _ later written)) (h.1 (group id label changed)) in
    (
      label,
      children,
      changed,
      insert_checked-Inserted path index w children changed inserted,
      subst (λ k. Exchanged (group k label children) (group k label changed) ws later) h.0
          exchanged,
    )

place_moved-Placed :
    (path : String) (parent : Option String) (index : ℕ) (w : WindowItem) (ws later : WindowItems)
    → place_moved path parent index w ws ≡ ok later
    → Placed parent index w ws later
unfolding place_moved
place_moved-Placed path none index w ws later e = insert_checked-Inserted path index w ws later e
place_moved-Placed path (some parent) index w ws later e =
    insert_group-Placed path parent index w ws later (find_mut parent ws)
      (find_mut-Writes parent ws) e

represent-Represented :
    (path key : String) (format : FragmentFormat) (value : Value) (ws later : WindowItems)
    (place : Place)
    → Writes key ws (some place)
    → represent path format value place ≡ ok later
    → Effect (representation key format value) ws later
unfolding represent item_id
represent-Represented path key format value ws later (fragment id role f v read, write) h e =
    let exchanged : Exchanged (fragment id role f v read) (fragment id role format value read) ws
        later =
      rw (← (ok-injective _ later e)) (h.1 (fragment id role format value read)) in
    (
      fragment key role f v read,
      fragment key role format value read,
      represented,
      subst (λ k. Exchanged (fragment k role f v read) (fragment k role format value read) ws later)
          h.0 exchanged,
    )
represent-Represented path key format value ws later (group id label children, write) h e = cc

-- An edit that succeeds changes the tree at its places and nowhere else. A removal takes out the item
-- with the identifier; a replacement exchanges that item for the new one, which has its identifier; a
-- change of representation exchanges a fragment for the same one with the given format and value; and
-- a move takes the item out and puts the same item at the given index of the top level or of the
-- group that is named as the parent.
pub apply_patch-Effect :
    (path : String) (p : WindowPatch) (ws later : WindowItems)
    → apply_patch path p ws ≡ ok later
    → Effect p ws later
unfolding apply_patch
apply_patch-Effect path (remove id) ws later e =
    let (found, taken, left) = >>=-eq-ok (or_fail (take id ws) (unknown path)) (λ f. ok f.1) e in
    let drop = subst (Drops id ws) (or_fail-eq-ok (take id ws) _ taken) (take-Drops id ws) in
    (found.0, drop.0, rw (← (ok-injective found.1 later left)) drop.1)
apply_patch-Effect path (replace id y) ws later e =
    let (kept, h) = >>-eq-ok (ensure (str_eq (item_id y) id) _) _ e in
    let (place, found, written) =
      >>=-eq-ok (or_fail (find_mut id ws) (unknown path)) (λ p. ok (p.1 y)) h in
    let write =
      subst (Writes id ws) (or_fail-eq-ok (find_mut id ws) _ found) (find_mut-Writes id ws) in
    (
      place.0,
      write.0,
      (eq_iff (item_id y) id).0 (ensure-eq-ok _ _ kept),
      rw (← (ok-injective (place.1 y) later written)) (write.1 y),
    )
apply_patch-Effect path (move id parent index) ws later e =
    let (found, taken, placed) =
      >>=-eq-ok (or_fail (take id ws) (unknown path)) (λ f. place_moved path parent index f.0 f.1)
        e in
    let drop = subst (Drops id ws) (or_fail-eq-ok (take id ws) _ taken) (take-Drops id ws) in
    (
      found.0,
      found.1,
      drop.0,
      drop.1,
      place_moved-Placed path parent index found.0 found.1 later placed,
    )
apply_patch-Effect path (representation id format value) ws later e =
    let (place, found, written) =
      >>=-eq-ok (or_fail (find_mut id ws) (unknown path)) (represent path format value) e in
    let write =
      subst (Writes id ws) (or_fail-eq-ok (find_mut id ws) _ found) (find_mut-Writes id ws) in
    represent-Represented path id format value ws later place write written
