-- ===== src/Context/Window.antt =====
-- rust/crates/zf-context/src/window.rs: prepared windows and their validation.
-- The writer of `serde_json` is a parameter, by the sizes of the chunks that it writes.
pub mod Patch
pub mod Forms
pub mod Accounts
pub mod Edits
pub mod Moves
pub mod Capture
pub mod Tools
use zedflow.Base.{
  ℕ, zero, suc, ◌+◌, ◌-◌, ◌*◌, ◌≤◌, String, Bool, true, false, not, ◌&&◌, ◌||◌, Option, none, some,
  List, [], ◌∷◌, leb, ltb, if◌then◌else◌, length, any, all, contains, is_some_and,
}
use zedflow.Base.Text.{is_blank, is_empty}
use zedflow.Base.Outcome.{Outcome, ok, err, ◌>>=◌, ◌>>◌, ensure}
use zedflow.Base.Maps.{Map, contains_key, values}
use zedflow.Base.Sets
use zedflow.Base.Sets.{Set}
use zedflow.Json
use zedflow.Json.{Value}
use zedflow.Core.Values.{text_at}
use zedflow.Core.Diagnostic.{Diagnostic, diagnostic}
use zedflow.Context.Fragment.{
  FragmentRole, FragmentFormat, ContextCapability, text, json, media, adk_messages, is_instruction,
  is_text,
}

abbrev pub max_items : ℕ
max_items = 4096

abbrev pub max_depth : ℕ
max_depth = 64

abbrev pub max_bytes : ℕ
max_bytes = 16 * 1024 * 1024

mutual
  pub data WindowItem : Type 0 where
    group : String → String → WindowItems → WindowItem
    fragment : String → FragmentRole → FragmentFormat → Value → List String → WindowItem

  pub data WindowItems : Type 0 where
    done : WindowItems
    entry : WindowItem → WindowItems → WindowItems

-- `WindowItem::id`
unfoldable pub item_id : WindowItem → String
item_id (group id label children) = id
item_id (fragment id role format value sources) = id

pub record PreparedWindow : Type 0 where
  pub strategy_id : String
  pub strategy_revision : String
  pub program_revision : Option String
  pub items : WindowItems
  pub source_revisions : Map String
  pub capabilities : List ContextCapability

pub data WindowError : Type 0 where
  invalid_window : List Diagnostic → WindowError

unfoldable pub invalid : String → String → String → WindowError
invalid code path message = invalid_window (diagnostic code path message ∷ [])

abbrev pub Checked : Type 0 → Type 0
Checked = Outcome WindowError

-- The value of a fragment fits its format.
unfoldable pub fits : FragmentFormat → Value → Bool
fits text v = Json.is_string v
fits json v = true
fits adk_messages v = is_some_and (Json.as_array v) (all Json.is_object)
fits media v =
    is_some_and (text_at v "contentRef") (λ s. not (is_empty s))
    && is_some_and (text_at v "mediaType") (λ s. not (is_empty s))

unfoldable pub within_depth : ℕ → Checked (Unit {0})
within_depth depth =
    ensure (leb depth max_depth) (invalid "window_limit" "items" "Window nesting exceeds 64 levels")

-- What is asked of an item before the `match`: room for it, and an identifier of its own.
unfoldable pub admit : String → Set → Checked (Unit {0})
admit id ids =
    ensure (ltb (length ids) max_items)
      (invalid "window_limit" "items" "Window exceeds its item limit")
    >> ensure (not (is_blank id) && not (contains ids id))
        (invalid "window_id" id "Window item identifiers must be nonempty and unique")

unfoldable pub check_label : String → String → Checked (Unit {0})
check_label id label =
    ensure (not (is_blank label)) (invalid "window_group" id "Group label cannot be empty")

unfoldable pub check_fragment :
    Map String → String → FragmentRole → FragmentFormat → Value → List String → Checked (Unit {0})
check_fragment sources id role format value read =
    ensure (not (is_instruction role && not (is_text format)))
      (invalid "window_format" id "Instructions require a text representation")
    >> ensure (fits format value)
        (invalid "window_format" id "Value does not match its explicit representation")
    >> ensure (not (any (λ name. not (contains_key sources name)) read))
        (invalid "window_source_revision" id "Fragment source has no captured revision")

-- The loop of the inner function `items`, after its test of the depth; it returns the identifiers.
unfoldable mutual
  pub check_each : ℕ → Map String → WindowItems → Set → Checked Set
  check_each depth sources done ids = ok ids
  check_each depth sources (entry w ws) ids =
      check_item depth sources w ids >>= λ seen. check_each depth sources ws seen

  pub check_item : ℕ → Map String → WindowItem → Set → Checked Set
  check_item depth sources (group id label children) ids = do
    admit id ids
    check_label id label
    within_depth (depth + 1)
    check_each (depth + 1) sources children (Sets.insert ids id)
  check_item depth sources (fragment id role format value read) ids = do
    admit id ids
    check_fragment sources id role format value read
    ok (Sets.insert ids id)

-- `Counter::write`: the counter and a chunk's size.
unfoldable pub write : ℕ → ℕ → Option ℕ
write n size = if ltb (max_bytes - n) size then none else some (n + size)

unfoldable pub write_all : ℕ → List ℕ → Option ℕ
write_all n [] = some n
write_all n (size ∷ rest) = elim (write n size) [ none ↦ none | some m ↦ write_all m rest ]

abbrev pub or_limit : Option ℕ → Checked (Unit {0})
or_limit (some n) = ok tt
or_limit none = err (invalid "window_limit" "window" "Window exceeds 16 MiB")

module _ (chunks : PreparedWindow → List ℕ) where
  unfoldable pub validate : PreparedWindow → Checked (Unit {0})
  unfolding within_depth
  validate w = do
    ensure (not (is_blank w.strategy_id || is_blank w.strategy_revision))
        (invalid "window_strategy" "window" "Window must identify its captured strategy revision")
    ensure (not (any is_blank (values w.source_revisions))) (
        invalid "window_source_revision" "sourceRevisions"
          "Source revision identities cannot be empty")
    within_depth 0
    ids ← check_each 0 w.source_revisions w.items []
    or_limit (write_all 0 (chunks w))
