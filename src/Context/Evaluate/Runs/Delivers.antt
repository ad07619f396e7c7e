-- ===== src/Context/Evaluate/Runs/Delivers.antt =====
-- rust/crates/zf-context/src/context.rs: what the methods that make items for a window promise of
-- them, and the rules by which their steps keep the promise.
use zedflow.Base.{ℕ, suc, ◌+◌, ◌≤◌, String, ◌≡◌, List, [], ◌∷◌, ◌++◌, arith, get_or}
use zedflow.Base.Outcome.{Outcome, ok, err}
use zedflow.Base.Sets.{Set}
use zedflow.Context.Evaluate.Values.{ContextValue, measured_bytes}
use zedflow.Context.Evaluate.State.{
  AccessError, Inputs, Outside, Evaluator, Answer, gave, panicked, exhausted, Action, and_then,
  handled, note,
}
use zedflow.Context.Evaluate.Blocks.Identities.{group, fragment, no_items, item}
use zedflow.Context.Evaluate.Blocks.Identities.{ContextItem, ContextItems, to_items, Made}
use zedflow.Context.Evaluate.Runs.{Ends, Subset, Moves, Runs, Runs-trans, Within, Known, After}
use zedflow.Context.Evaluate.Runs.Steps.{keep_note}

-- The sources that the fragments among items name were all read.
unfoldable mutual
  pub ItemRead : Set → ContextItem → Type 0
  ItemRead all (group id label within) = ItemsRead all within
  ItemRead all (fragment id role format v sources) = Subset sources all

  pub ItemsRead : Set → ContextItems → Type 0
  ItemsRead all no_items = Unit
  ItemsRead all (item x xs) = ItemRead all x × ItemsRead all xs

-- How many items there are, those inside of groups included.
unfoldable mutual
  pub item_count : ContextItem → ℕ
  item_count (group id label within) = suc (items_count within)
  item_count (fragment id role format v sources) = 1

  pub items_count : ContextItems → ℕ
  items_count no_items = 0
  items_count (item x xs) = item_count x + items_count xs

module _ (size : ContextValue → ℕ) where
  -- The sizes of the fragments together.
  unfoldable mutual
    pub item_size : ContextItem → ℕ
    item_size (group id label within) = items_size within
    item_size (fragment id role format v sources) = size v

    pub items_size : ContextItems → ℕ
    items_size no_items = 0
    items_size (item x xs) = item_size x + items_size xs

  pub size-append :
      (xs ys : List ContextItem)
      → items_size (to_items (xs ++ ys)) ≡ items_size (to_items xs) + items_size (to_items ys)
  unfolding items_size
  size-append [] ys = omega arith
  size-append (x ∷ xs) ys = omega (arith, size-append xs ys)

pub count-append :
    (xs ys : List ContextItem)
    → items_count (to_items (xs ++ ys)) ≡ items_count (to_items xs) + items_count (to_items ys)
unfolding items_count
count-append [] ys = omega arith
count-append (x ∷ xs) ys = omega (arith, count-append xs ys)

pub read-append :
    (all : Set) (xs ys : List ContextItem)
    → ItemsRead all (to_items xs)
    → ItemsRead all (to_items ys)
    → ItemsRead all (to_items (xs ++ ys))
unfolding ItemsRead
read-append all [] ys left right = right
read-append all (x ∷ xs) ys (here, left) right = (here, read-append all xs ys left right)

mutual
  unfolding ItemsRead

  item_grows : (a b : Set) → Subset a b → (x : ContextItem) → ItemRead a x → ItemRead b x
  item_grows a b sub (group id label within) read = items_grow a b sub within read
  item_grows a b sub (fragment id role format v sources) read = λ x h. sub x (read x h)

  pub items_grow : (a b : Set) → Subset a b → (xs : ContextItems) → ItemsRead a xs → ItemsRead b xs
  items_grow a b sub no_items read = tt
  items_grow a b sub (item x xs) (here, later) =
      (item_grows a b sub x here, items_grow a b sub xs later)

module _ (given : Inputs) (outside : Outside) where
  -- The size that the byte budget of a window counts for a fragment.
  abbrev pub weight : ContextValue → ℕ
  weight v = get_or (measured_bytes outside.chunks v given.limits.max_bytes) 0

  -- Items made between two states: what they name was read, and both budgets counted them.
  pub record Makes (s : Evaluator) (out : List ContextItem) (t : Evaluator) : Type 0 where
    pub read : ItemsRead t.all_reads (to_items out)
    pub items : s.output_items + items_count (to_items out) ≤ t.output_items
    pub bytes : s.output_bytes + items_size weight (to_items out) ≤ t.output_bytes

  -- A method that returns no error and whose result holds these items.
  unfoldable pub Delivers :
      {A : Type 0} → (A → List ContextItem) → Evaluator → Outcome AccessError A → Evaluator → Type 0
  Delivers out s (ok a) t = Runs s t × Within given t × Makes s (out a) t
  Delivers out s (err e) t = ⊥

  pub Makes-first :
      (s t u : Evaluator) (out : List ContextItem) → Moves s t → Makes t out u → Makes s out u
  Makes-first s t u out moves made = record {
    read = made.read;
    items = omega (arith, moves.output_items, made.items);
    bytes = omega (arith, moves.output_bytes, made.bytes);
  }

  pub Makes-last :
      (s t u : Evaluator) (out : List ContextItem) → Makes s out t → Moves t u → Makes s out u
  Makes-last s t u out made moves = record {
    read = items_grow t.all_reads u.all_reads moves.all_reads (to_items out) made.read;
    items = omega (arith, moves.output_items, made.items);
    bytes = omega (arith, moves.output_bytes, made.bytes);
  }

  pub Makes-nil : (s t : Evaluator) → Moves s t → Makes s [] t
  unfolding ItemsRead items_count items_size
  Makes-nil s t moves = record {
    read = tt;
    items = omega (arith, moves.output_items);
    bytes = omega (arith, moves.output_bytes);
  }

  pub Makes-append :
      (s t u : Evaluator) (here later : List ContextItem)
      → Makes s here t
      → Moves t u
      → Makes t later u
      → Makes s (here ++ later) u
  Makes-append s t u here later first moves second = record {
    read =
        read-append u.all_reads here later
          (items_grow t.all_reads u.all_reads moves.all_reads (to_items here) first.read)
          second.read;
    items = omega (arith, first.items, second.items, count-append here later);
    bytes = omega (arith, first.bytes, second.bytes, size-append weight here later);
  }

  module _ {A : Type 0} (out : A → List ContextItem) where
    pub deliver_first :
        (s t : Evaluator) (r : Answer A)
        → Runs s t
        → Ends (Delivers out t) r
        → Ends (Delivers out s) r
    unfolding Delivers
    deliver_first s t (gave (ok a) u) runs (later, within, made) =
        (Runs-trans s t u runs later, within, Makes-first s t u (out a) runs.moves made)
    deliver_first s t (gave (err e) u) runs ends = ends
    deliver_first s t panicked runs ends = ends
    deliver_first s t exhausted runs ends = ends

    -- The result of a method that is handled without `?`.
    pub deliver_handled :
        {B : Type 0} (s : Evaluator) (r : Answer B) (f : Outcome AccessError B → Action A)
        → Ends (After given s) r
        → ((o : Outcome AccessError B) (t : Evaluator)
            → Known given o
            → Runs s t
            → Within given t
            → Ends (Delivers out t) (f o t))
        → Ends (Delivers out s) (handled r f)
    unfolding handled
    deliver_handled s (gave o t) f (known, runs, within) next =
        deliver_first s t (f o t) runs (next o t known runs within)
    deliver_handled s panicked f ends next = ends
    deliver_handled s exhausted f ends next = ends

    -- One such method after another.
    pub deliver_then :
        {B : Type 0} (before : B → List ContextItem) (s : Evaluator) (r : Answer B)
        (f : B → Action A)
        → Ends (Delivers before s) r
        → ((b : B) (t : Evaluator)
            → Runs s t
            → Within given t
            → Makes s (before b) t
            → Ends (Delivers out s) (f b t))
        → Ends (Delivers out s) (and_then r f)
    unfolding and_then Delivers
    deliver_then before s (gave (ok b) t) f (runs, within, made) next = next b t runs within made
    deliver_then before s (gave (err e) t) f ends next = elim ends [ ]
    deliver_then before s panicked f ends next = ends
    deliver_then before s exhausted f ends next = ends

  abbrev pub nothing : {A : Type 0} → A → List ContextItem
  nothing a = []

  abbrev pub self : List ContextItem → List ContextItem
  self out = out

  abbrev pub second : Made → List ContextItem
  second made = made.1

  -- A method that made nothing and returns nothing.
  pub deliver_nil :
      (s t : Evaluator) → Runs s t → Within given t → Ends (Delivers self s) (gave (ok []) t)
  unfolding Delivers
  deliver_nil s t runs within = (runs, within, Makes-nil s t runs.moves)

  pub deliver_note :
      (s : Evaluator) (path message : String)
      → Within given s
      → Ends (Delivers self s) (gave (ok []) (note path message s))
  deliver_note s path message within =
      let (runs, kept) = keep_note given s path message within in
      deliver_nil s (note path message s) runs kept
