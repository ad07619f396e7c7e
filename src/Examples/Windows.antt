-- ===== src/Examples/Windows.antt =====
-- Windows: a group with a fragment, an edit that moves it out, and grants.
use zedflow.Base.{
  ℕ, ◌+◌, ◌≤◌, String, ◌≡◌, refl, true, Option, none, some, List, [], ◌∷◌, arith, leb, count, sum,
  if◌then◌else◌,
}
use zedflow.Base.Text.{is_blank}
use zedflow.Base.Outcome.{err}
use zedflow.Base.Maps
use zedflow.Base.Maps.{Map}
use zedflow.Base.Sets
use zedflow.Json.{is_string, Value, string, object, no_members}
use zedflow.Core.Identity
use zedflow.Context.Fragment.{is_text, is_instruction, instruction, content, text, json}
use zedflow.Context.Window.{
  item_id, write, check_label, fits, check_fragment, admit, WindowItem, WindowItems, group,
  fragment, done, entry, PreparedWindow, invalid, max_bytes, write_all, validate, check_each,
}
use zedflow.Context.Window.Forms.{ids, IsWellFormed, write_all-sum, validate-IsWellFormed}
use zedflow.Context.Window.Patch.{move, apply_patch, patched, take}
use zedflow.Context.Window.Edits.{Effect, apply_patch-Effect}
use zedflow.Context.Window.Accounts.Swapping.{take_absent}
use zedflow.Context.Window.Moves.{SameCapture, patched-IsWellFormed, move_into_itself}
use zedflow.Context.Window.Capture.{ContextEvaluation, IsCapturable, capture, capture-IsWellFormed}
use zedflow.Context.Window.Tools.{
  WindowGrant, check_grants, read_aliases, write_aliases, grants_unique,
}

abbrev rule : WindowItem
rule = fragment "rule" instruction text (string "be brief") ("policy" ∷ [])

abbrev fact : WindowItem
fact = fragment "fact" content json (object no_members) []

abbrev inner : WindowItem
inner = group "inner" "Inner" (entry fact done)

abbrev outer : WindowItem
outer = group "outer" "Outer" (entry inner done)

abbrev tree : WindowItems
tree = entry rule (entry outer done)

abbrev moved : WindowItems
moved =
    entry fact
      (entry rule (entry (group "outer" "Outer" (entry (group "inner" "Inner" done) done)) done))

abbrev revisions : Map String
revisions = ("policy", "7") ∷ []

abbrev holding : WindowItems → PreparedWindow
holding ws = record {
  strategy_id = "s";
  strategy_revision = "1";
  program_revision = none;
  items = ws;
  source_revisions = revisions;
  capabilities = [];
}

abbrev chunks : PreparedWindow → List ℕ
chunks w = 40 ∷ 60 ∷ []

write_all-sum_example :
    write_all 0 (5 ∷ 7 ∷ [])
    ≡ (if leb (0 + sum (5 ∷ 7 ∷ [])) max_bytes then some (0 + sum (5 ∷ 7 ∷ [])) else none)
write_all-sum_example = write_all-sum 0 (5 ∷ 7 ∷ []) (omega arith)

validate-IsWellFormed_example : IsWellFormed chunks (holding tree)
unfolding validate is_blank check_each admit check_fragment is_instruction is_text fits is_string
    Maps.get Sets.insert check_label write_all write
validate-IsWellFormed_example = validate-IsWellFormed chunks (holding tree) refl

patched-IsWellFormed_example :
    IsWellFormed chunks (holding moved) × SameCapture (holding tree) (holding moved)
unfolding patched is_blank check_each admit check_fragment is_instruction is_text fits is_string
    Maps.get Sets.insert check_label write_all write item_id
patched-IsWellFormed_example =
    patched-IsWellFormed chunks (holding tree) (holding moved) (move "fact" none 0 ∷ []) refl

apply_patch-Effect_example : Effect (move "fact" none 0) tree moved
unfolding apply_patch item_id
apply_patch-Effect_example = apply_patch-Effect "patches[0]" (move "fact" none 0) tree moved refl

move_into_itself_example :
    apply_patch "patches[0]" (move "outer" (some "inner") 0) tree
    ≡ err (
        invalid "window_parent" "patches[0]"
          "Destination must be an existing group outside the moved subtree")
unfolding take validate ids is_blank check_each admit check_fragment is_instruction is_text fits
    is_string Maps.get Sets.insert check_label write_all write item_id
move_into_itself_example =
    move_into_itself "patches[0]" "outer" "inner" 0 tree outer (entry rule done)
      ((validate-IsWellFormed chunks (holding tree) refl).once) refl (omega arith)

take_absent_example : count "other" (ids tree) ≡ 0
unfolding take item_id
take_absent_example = take_absent "other" tree refl

abbrev evaluated : ContextEvaluation WindowItems
evaluated = record {
  complete = true;
  items = tree;
  capabilities = [];
  needs = [];
  diagnostics = [];
  reads = "policy" ∷ [];
}

abbrev encoded : WindowItems → Option Value
encoded ws = some (string "items")

abbrev decoded : Value → Option WindowItems
decoded v = some tree

capture-IsWellFormed_example :
    IsWellFormed chunks (holding tree)
    × IsCapturable evaluated revisions
    × ((holding tree).strategy_id ≡ "s")
    × ((holding tree).strategy_revision ≡ "1")
    × ((holding tree).source_revisions ≡ revisions)
unfolding capture Maps.get validate is_blank check_each admit check_fragment is_instruction is_text
    fits is_string Sets.insert check_label write_all write
capture-IsWellFormed_example =
    capture-IsWellFormed chunks encoded decoded "s" "1" evaluated revisions (holding tree) refl

abbrev grants : List WindowGrant
grants =
    record { alias = "main"; permission = Identity.write }
    ∷ record { alias = "log"; permission = Identity.read }
    ∷ []

grants_unique_example :
    (count "main" (read_aliases grants) ≤ 1)
    × (count "main" (write_aliases grants) ≤ count "main" (read_aliases grants))
unfolding check_grants is_blank Sets.insert
grants_unique_example = grants_unique grants refl "main"
