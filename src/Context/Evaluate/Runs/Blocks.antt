-- ===== src/Context/Evaluate/Runs/Blocks.antt =====
-- rust/crates/zf-context/src/context.rs: the evaluation of a program ends within its budgets, and
-- what it makes names only what it has read.
use zedflow.Base.{
  ℕ, suc, ◌+◌, ◌<◌, String, ◌<>◌, refl, inl, inr, Bool, true, false, none, List, [], ◌∷◌, ◌++◌,
  arith, leb, length, Bool-cases,
}
use zedflow.Base.Outcome.{Outcome, ok, err}
use zedflow.Base.Text.{decimal}
use zedflow.Context.Language.{ContextBlock, ContextBlocks, no_blocks, block, block_id}
use zedflow.Context.Evaluate.State.{
  AccessError, missing, invalid, Inputs, Outside, Evaluator, Answer, gave, panicked, exhausted,
  Action, and_then, count_output, pure,
}
use zedflow.Context.Evaluate.Blocks.{group_items, choose, guarded, make_block, blocks_from}
use zedflow.Context.Evaluate.Blocks.Identities.{group}
use zedflow.Context.Evaluate.Blocks.Identities.{ContextItem, to_items}
use zedflow.Context.Evaluate.Runs.{Ends, Runs, Runs-refl, Runs-trans, Within, Known, Safe}
use zedflow.Context.Evaluate.Runs.Steps.{safe-tick}
use zedflow.Context.Evaluate.Runs.Required.{RequiresBlock, RequiresBlocks, RequiresLibrary}
use zedflow.Context.Evaluate.Runs.Expressions.{safe-expression, safe-predicate}
use zedflow.Context.Evaluate.Runs.Delivers.{
  ItemsRead, items_count, items_size, Makes, Makes-append, Delivers, self, second, deliver_handled,
  deliver_then, deliver_nil, deliver_note,
}
use zedflow.Context.Evaluate.Runs.Turns.{keep_items, demanded-ends, emit_value-ends}
use zedflow.Context.Evaluate.Runs.Leaving.{enter_block-ends}
use zedflow.Context.Evaluate.Runs.Looped.{for_each_value-ends}

module _ (given : Inputs) (outside : Outside) (fuel : ℕ)
    (enough : given.limits.max_steps < fuel) where
  -- A program's blocks at a path.
  BlocksEnd : (String → Action (List ContextItem)) → Type 0
  BlocksEnd body =
      (path : String) (s : Evaluator)
      → Within given s
      → Ends (Delivers given outside (self given outside) s) (body path s)

  plain-ends :
      (s : Evaluator) (r : Answer (List ContextItem))
      → Ends (Delivers given outside (self given outside) s) r
      → Ends
          (Delivers given outside (second given outside) s)
          (and_then r (λ out. pure (none, out)))
  unfolding Delivers
  plain-ends s r ends =
      deliver_then given outside (second given outside) (self given outside) s r _ ends
        λ out t runs within made. (runs, within, made)

  choose-ends :
      (chosen otherwise : String → Action (List ContextItem)) (path : String)
      (o : Outcome AccessError Bool) (s : Evaluator)
      → BlocksEnd chosen
      → BlocksEnd otherwise
      → Known given o
      → Within given s
      → Ends
          (Delivers given outside (second given outside) s)
          (choose given outside fuel chosen otherwise path o s)
  unfolding choose BlocksEnd Delivers
  choose-ends chosen otherwise path (ok true) s first later known w =
      deliver_then given outside (second given outside) (self given outside) s _ _
        (first (path <> ".then") s w) λ out t runs within made. (runs, within, made)
  choose-ends chosen otherwise path (ok false) s first later known w =
      deliver_then given outside (second given outside) (self given outside) s _ _
        (later (path <> ".else") s w) λ out t runs within made. (runs, within, made)
  choose-ends chosen otherwise path (err (missing name)) s first later known w =
      demanded-ends given outside fuel (second given outside) (none, []) (missing name) path s known
        refl w
  choose-ends chosen otherwise path (err invalid) s first later known w =
      demanded-ends given outside fuel (second given outside) (none, []) invalid path s tt refl w

  -- The group itself is one item, which was counted before those inside of it.
  grouped :
      (s : Evaluator) (id label : String) (r : Answer (List ContextItem))
      → let start : Evaluator = record s { output_items = s.output_items + 1 } in
        Runs s start
        → Ends (Delivers given outside (self given outside) start) r
        → Ends
            (Delivers given outside (self given outside) s)
            (and_then r (λ out. pure (group id label (to_items out) ∷ [])))
  unfolding Delivers and_then ItemsRead items_count items_size
  grouped s id label (gave (ok out) t) first (runs, within, made) = (
    Runs-trans s (record s { output_items = s.output_items + 1 }) t first runs,
    within,
    record {
      read = (made.read, tt);
      items = omega (arith, made.items);
      bytes = omega (arith, made.bytes);
    },
  )
  grouped s id label (gave (err e) t) first ends = ends
  grouped s id label panicked first ends = ends
  grouped s id label exhausted first ends = ends

  group-ends :
      (body : String → Action (List ContextItem)) (id label path : String) (s : Evaluator)
      → BlocksEnd body
      → Within given s
      → Ends (Delivers given outside (self given outside) s) (
          and_then
            (count_output given path s)
            (λ counted. group_items given outside fuel body id label path counted))
  unfolding count_output group_items and_then Delivers BlocksEnd ItemsRead items_count items_size
  group-ends body id label path s ends w =
      elim (Bool-cases (leb given.limits.max_items s.output_items)) [
        | inl full ↦ rw full (deliver_note given outside s path _ w)
        | inr free ↦ rw free (
            let start : Evaluator = record s { output_items = s.output_items + 1 } in
            let (first, within) =
              keep_items given outside fuel s s.output_bytes w (ground (arith, free)) (omega arith)
                w.output in
            grouped s id label (body (path <> ".items") start) first
              (ends (path <> ".items") start within))
      ]

  guarded-ends :
      (path : String) (rest : Action (List ContextItem)) (o : Outcome AccessError (Unit {0}))
      (s : Evaluator)
      → Within given s
      → Ends (Delivers given outside (self given outside) s) (rest s)
      → Ends
          (Delivers given outside (self given outside) s)
          (guarded given outside fuel path rest o s)
  unfolding guarded
  guarded-ends path rest (err e) s w ends = deliver_nil given outside s s (Runs-refl given s) w
  guarded-ends path rest (ok _) s w ends =
      elim (Bool-cases (leb given.limits.max_items (length s.trace))) [
        | inl e ↦ rw e (deliver_note given outside s path _ w)
        | inr e ↦ rw e ends
      ]

  -- The rest of the blocks after one of them.
  appended :
      (s t : Evaluator) (here : List ContextItem) (r : Answer (List ContextItem))
      → Runs s t
      → Makes given outside s here t
      → Ends (Delivers given outside (self given outside) t) r
      → Ends
          (Delivers given outside (self given outside) s)
          (and_then r (λ later. pure (here ++ later)))
  unfolding Delivers and_then
  appended s t here (gave (ok later) u) first made (runs, within, more) = (
    Runs-trans s t u first runs,
    within,
    Makes-append given outside s t u here later made runs.moves more,
  )
  appended s t here (gave (err e) u) first made ends = ends
  appended s t here panicked first made ends = ends
  appended s t here exhausted first made ends = ends

  fuelled : (s : Evaluator) → given.limits.max_steps < s.steps + fuel
  fuelled s = omega (arith, enough)

  module _ (library : RequiresLibrary given) where
    mutual
      unfolding blocks_from RequiresBlocks Safe BlocksEnd

      make_block-ends :
          (b : ContextBlock) (path id : String) (s : Evaluator)
          → RequiresBlock given b
          → Within given s
          → Ends
              (Delivers given outside (second given outside) s)
              (make_block given outside fuel b path id s)
      make_block-ends (ContextBlock.group authored label body) path id s required w =
          plain-ends s _ (
            group-ends (blocks_from given outside fuel body 0) id label path s
              (λ path' t. blocks_from-ends body 0 path' t required) w)
      make_block-ends (ContextBlock.emit authored role format value) path id s required w =
          plain-ends s _ (
            deliver_handled given outside (self given outside) s _ _
              (safe-expression given outside library fuel value path required s w (fuelled s))
              λ o t known runs within.
                emit_value-ends given outside fuel id role format path o t known within)
      make_block-ends (ContextBlock.branch authored condition chosen otherwise) path id s required
            w =
          deliver_handled given outside (second given outside) s _ _
            (safe-predicate given outside library fuel condition (path <> ".condition") required.0 s
              w (fuelled s))
            λ o t known runs within.
              choose-ends (blocks_from given outside fuel chosen 0)
                (blocks_from given outside fuel otherwise 0) path o t
                (λ path' u. blocks_from-ends chosen 0 path' u required.1)
                (λ path' u. blocks_from-ends otherwise 0 path' u required.2) known within
      make_block-ends (ContextBlock.for_each authored value name body) path id s required w =
          plain-ends s _ (
            deliver_handled given outside (self given outside) s _ _
              (safe-expression given outside library fuel value (path <> ".value") required.0 s w
                (fuelled s))
              λ o t known runs within.
                for_each_value-ends given outside fuel enough name
                  (blocks_from given outside fuel body 0)
                  (λ path' u. blocks_from-ends body 0 path' u required.1) authored path o t known
                  within)

      -- The blocks of a program end, with no error and within the budgets; they restore the variables
      -- and deliver items that the budgets have counted and whose sources were read.
      pub blocks_from-ends :
          (bs : ContextBlocks) (i : ℕ) (path : String) (s : Evaluator)
          → RequiresBlocks given bs
          → Within given s
          → Ends
              (Delivers given outside (self given outside) s)
              (blocks_from given outside fuel bs i path s)
      blocks_from-ends no_blocks i path s required w =
          deliver_nil given outside s s (Runs-refl given s) w
      blocks_from-ends (block b rest) i path s (first, later) w =
          let here = path <> "[" <> decimal i <> "]" in
          deliver_handled given outside (self given outside) s _ _
            (safe-tick given fuel here s w (fuelled s))
            λ ticked t known runs within. guarded-ends here _ ticked t within (
              deliver_then given outside (self given outside) (self given outside) t _ _
                (enter_block-ends given outside fuel (block_id b) here
                  (make_block given outside fuel b here) t within
                  (λ id u. make_block-ends b here id u first))
                λ out u onward inside made.
                  appended t u out _ onward made
                    (blocks_from-ends rest (suc i) path u later inside))
