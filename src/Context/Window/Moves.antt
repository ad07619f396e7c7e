-- ===== src/Context/Window/Moves.antt =====
-- Windows stay well formed under edits, and a move never puts a group inside itself.
use zedflow.Base.{
  ℕ, ◌+◌, ◌≤◌, ◌<◌, String, ◌<>◌, ◌≡◌, refl, subst, ◌&&◌, Option, none, some, List, [], ◌∷◌, arith,
  length, ltb, leb, count,
}
use zedflow.Base.Text.{decimal}
use zedflow.Base.Outcome.{ok, err, >>=-eq-ok, >>-eq-ok, ok-injective, ensure}
use zedflow.Context.Window.{WindowItem, WindowItems, PreparedWindow, invalid, max_items, validate}
use zedflow.Context.Window.Forms.{ids, ids_of, IsWellFormed, validate-IsWellFormed}
use zedflow.Context.Window.Patch.{
  find_mut, take, WindowPatch, move, place_moved, apply_patch, apply_from, apply_patches, patched,
  Place,
}
use zedflow.Context.Window.Accounts.{count-item_id}
use zedflow.Context.Window.Accounts.Swapping.{find_mut-Swaps, Swaps}
use zedflow.Context.Window.Accounts.Taking.{take-Splits, Splits}

-- What edits leave alone.
abbrev pub SameCapture : PreparedWindow → PreparedWindow → Type 0
SameCapture w w' =
    (w'.strategy_id ≡ w.strategy_id)
    × (w'.strategy_revision ≡ w.strategy_revision)
    × (w'.program_revision ≡ w.program_revision)
    × (w'.source_revisions ≡ w.source_revisions)
    × (w'.capabilities ≡ w.capabilities)

module _ (chunks : PreparedWindow → List ℕ) where
  apply_from-IsWellFormed :
      (i : ℕ) (ps : List WindowPatch) (w w' : PreparedWindow)
      → IsWellFormed chunks w
      → apply_from chunks i ps w ≡ ok w'
      → IsWellFormed chunks w' × SameCapture w w'
  unfolding apply_from
  apply_from-IsWellFormed i [] w w' v e =
      let same = ok-injective w w' e in
      subst (λ t. IsWellFormed chunks t × SameCapture w t) same (v, (refl, refl, refl, refl, refl))
  apply_from-IsWellFormed i (p ∷ ps) w w' v e =
      let (items, edited, h) =
        >>=-eq-ok (apply_patch ("patches[" <> decimal i <> "]") p w.items) _ e in
      let (valid, rest) = >>-eq-ok (validate chunks (record w { items = items })) _ h in
      apply_from-IsWellFormed (i + 1) ps (record w { items = items }) w'
        (validate-IsWellFormed chunks (record w { items = items }) valid) rest

  -- The window that edits produce is well formed, and they leave its strategy, the revisions that it
  -- captured and its capabilities as they were.
  pub patched-IsWellFormed :
      (w w' : PreparedWindow) (ps : List WindowPatch)
      → patched chunks w ps ≡ ok w'
      → IsWellFormed chunks w' × SameCapture w w'
  unfolding patched apply_patches
  patched-IsWellFormed w w' ps e =
      let (valid, h) = >>-eq-ok (validate chunks w) _ e in
      let (_, applied) = >>-eq-ok (ensure (ltb 0 (length ps) && leb (length ps) max_items) _) _ h in
      apply_from-IsWellFormed 0 ps w w' (validate-IsWellFormed chunks w valid) applied

-- With distinct identifiers, what is left after an item was taken holds none of its identifiers.
gone :
    (id parent : String) (ws : WindowItems) (w : WindowItem) (rest : WindowItems)
    → ((x : String) → count x (ids ws) ≤ 1)
    → take id ws ≡ some (w, rest)
    → 0 < count parent (ids_of w)
    → count parent (ids rest) ≡ 0
gone id parent ws w rest once taken inside =
    let split = subst (Splits id ws) taken (take-Splits id ws) in
    omega (arith, once parent, split.1 parent)

no_place :
    (key : String) (ws : WindowItems) (o : Option Place)
    → Swaps key ws o
    → count key (ids ws) ≡ 0
    → o ≡ none
no_place key ws none h c = refl
no_place key ws (some (w, write)) h c =
    let here : 0 < count key (ids_of w) =
      subst (λ k. 0 < count k (ids_of w)) h.0 (count-item_id w) in
    absurd (omega (arith, h.2 key, here, c))

-- Where identifiers are distinct, a move of a group to a parent that is the group itself or stands
-- inside it is refused, whatever the index.
pub move_into_itself :
    (path id parent : String) (index : ℕ) (ws : WindowItems) (w : WindowItem) (rest : WindowItems)
    → ((x : String) → count x (ids ws) ≤ 1)
    → take id ws ≡ some (w, rest)
    → 0 < count parent (ids_of w)
    → apply_patch path (move id (some parent) index) ws
      ≡ err (
          invalid "window_parent" path
            "Destination must be an existing group outside the moved subtree")
unfolding apply_patch
move_into_itself path id parent index ws w rest once taken inside =
    let none_left = gone id parent ws w rest once taken inside in
    let nowhere =
      no_place parent rest (find_mut parent rest) (find_mut-Swaps parent rest) none_left in
    rw taken (rw (nowhere, place_moved) refl)
