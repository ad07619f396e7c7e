-- ===== src/Context/Evaluate/Blocks.antt =====
-- rust/crates/zf-context/src/context.rs: `Evaluator::blocks`, the operations that it alone uses,
-- and `evaluate_with_limits` from the point where the strategy has been checked.
-- The recursion follows the blocks; their expressions are evaluated with the fuel of the section.
pub mod Identities
use zedflow.Context.Evaluate.Blocks.Identities.{
  group, fragment, ContextItem, to_items, made_id, required_at, occurrence_id, popped, Made, if_ok,
}
use zedflow.Base.{
  ℕ, zero, suc, ◌+◌, ◌-◌, String, ◌<>◌, Bool, true, false, Option, none, some, List, [], ◌∷◌, ◌++◌,
  leb, ltb, if◌then◌else◌, length, contains, map,
}
use zedflow.Base.Outcome.{Outcome, ok, err}
use zedflow.Base.Text.{decimal}
use zedflow.Base.Maps
use zedflow.Base.Maps.{Map}
use zedflow.Base.Sets
use zedflow.Base.Sets.{Set}
use zedflow.Core.Types.{DataType}
use zedflow.Context.Fragment.{FragmentRole, FragmentFormat}
use zedflow.Context.Window.Capture.{ResourceNeed, none_of}
use zedflow.Context.Language.{ContextBlock, ContextBlocks, no_blocks, block, block_id}
use zedflow.Context.Evaluate.Values.{ContextValue, index}
use zedflow.Context.Evaluate.State.{
  AccessError, missing, invalid, Inputs, Outside, Evaluator, gave, panicked, exhausted, Action,
  pure, ◌>>=◌, ◌>>◌, attempt, handled, modify, observe, note, restore, tick, items, bytes,
  count_output, extend,
}
use zedflow.Context.Evaluate.Expressions.{expression, predicate}

module _ (given : Inputs) (outside : Outside) (fuel : ℕ) where
  unfoldable pub demand_with :
      String → String → Option ResourceNeed → Option DataType → Action (Unit {0})
  demand_with name path (some need) _ =
      modify λ s. record s { needs = Maps.insert s.needs name (required_at path need) }
  demand_with name path none (some t) =
      let need : ResourceNeed = record {
        resource = name;
        data_type = t;
        required_by = path ∷ [];
      } in
      modify λ s. record s { needs = Maps.insert s.needs name need }
  demand_with name path none none = λ s. panicked

  unfoldable pub demand : AccessError → String → Action (Unit {0})
  unfolding demand_with
  demand (missing name) path =
      observe (λ s. Maps.get s.needs name)
        (λ need. demand_with name path need (Maps.get given.requirements name))
  demand invalid path = pure tt

  -- The arm for `Emit`, once its value was evaluated.
  unfoldable pub place_fragment :
      String → FragmentRole → FragmentFormat → ContextValue → String → ℕ → Action (List ContextItem)
  place_fragment id role format v path size s =
      if ltb (given.limits.max_bytes - s.output_bytes) size
      then gave (ok []) (note path "Prepared window exceeds its byte budget" s)
      else (count_output given path >>= λ counted.
            if counted
            then modify (λ t. record t { output_bytes = t.output_bytes + size })
              >> observe (λ t. t.reads) (λ reads. pure (fragment id role format v reads ∷ []))
            else pure [])
          s

  unfoldable pub emit_value :
      String
      → FragmentRole
      → FragmentFormat
      → String
      → Outcome AccessError ContextValue
      → Action (List ContextItem)
  unfolding place_fragment
  emit_value id role format path (err e) = demand e path >> pure []
  emit_value id role format path (ok v) =
      attempt (bytes given outside.chunks v path)
        (if_ok (λ size. place_fragment id role format v path size))

  -- The turns of a loop from an index on; `body` evaluates the blocks inside it at a path.
  unfoldable pub loop_turn :
      (String → Action (List ContextItem))
      → String
      → String
      → String
      → ℕ
      → Option ContextValue
      → Action (List ContextItem)
  loop_turn body id name path i none = pure []
  loop_turn body id name path i (some v) = do
    modify λ s. record s {
      variables = Maps.insert s.variables name v;
      iterations = s.iterations ++ record { block_id = id; index = i } ∷ [];
    }
    out ← body (path <> ".iterations[" <> decimal i <> "].items")
    modify λ s. record s { iterations = popped s.iterations }
    pure out

  abbrev pub stops : Outcome AccessError (Unit {0}) → Evaluator → Bool
  stops (err e) s = true
  stops (ok _) s = leb given.limits.max_items (length s.trace)

  unfoldable pub loop_turns :
      (String → Action (List ContextItem))
      → String
      → String
      → String
      → ContextValue
      → ℕ
      → ℕ
      → Action (List ContextItem)
  unfolding loop_turn
  loop_turns body id name path source i zero = pure []
  loop_turns body id name path source i (suc n) = attempt (tick given path) λ ticked.
      observe (stops ticked) λ stop.
        if stop
        then modify (note path "Loop exceeds the context evaluation budget") >> pure []
        else loop_turn body id name path i (index source i) >>= λ here.
            loop_turns body id name path source (suc i) n >>= λ later. pure (here ++ later)

  -- The two entries of the loop's variable are restored after its turns.
  unfoldable pub looped : String → Action (List ContextItem) → Action (List ContextItem)
  looped name turns before =
      handled
        (turns (record before {
          variables = Maps.erase before.variables name;
          variable_sources = Maps.insert before.variable_sources name before.reads;
        }))
        λ o s. gave o (record s {
          variables = restore name (Maps.get before.variables name) s.variables;
          variable_sources =
              restore name (Maps.get before.variable_sources name) s.variable_sources;
        })

  unfoldable pub for_each_value :
      (String → Action (List ContextItem))
      → String
      → String
      → String
      → Outcome AccessError ContextValue
      → Action (List ContextItem)
  unfolding looped loop_turns
  for_each_value body id name path (err e) = demand e path >> pure []
  for_each_value body id name path (ok source) =
      attempt (items given source path)
        (if_ok (λ count. looped name (loop_turns body id name path source 0 count)))

  unfoldable pub group_items :
      (String → Action (List ContextItem))
      → String
      → String
      → String
      → Bool
      → Action (List ContextItem)
  group_items body id label path true =
      body (path <> ".items") >>= λ out. pure (group id label (to_items out) ∷ [])
  group_items body id label path false = pure []

  unfoldable pub choose :
      (String → Action (List ContextItem))
      → (String → Action (List ContextItem))
      → String
      → Outcome AccessError Bool
      → Action Made
  choose chosen otherwise path (ok true) = chosen (path <> ".then") >>= λ out. pure (some true, out)
  choose chosen otherwise path (ok false) =
      otherwise (path <> ".else") >>= λ out. pure (some false, out)
  choose chosen otherwise path (err e) = demand e path >> pure (none, [])

  abbrev pub plain : Action (List ContextItem) → Action Made
  plain m = m >>= λ out. pure (none, out)

  -- What the end of a turn of `blocks` records.
  unfoldable pub leave_block : String → String → String → Made → Action (Unit {0})
  leave_block id authored path (outcome, out) s =
      if ltb (length s.trace) given.limits.max_items
      then gave (ok tt) (record s {
        trace =
            s.trace
            ++ record {
              id = id;
              block_id = authored;
              path = path;
              sources = s.reads;
              iterations = s.iterations;
              output_ids = map made_id out;
              outcome = outcome;
            }
              ∷ [];
      })
      else gave (ok tt) (note path "Context trace exceeds its item budget" s)

  -- A turn of `blocks` around what the block itself makes.
  unfoldable pub enter_block : String → String → (String → Action Made) → Action (List ContextItem)
  unfolding leave_block
  enter_block authored path body = do
    id ← occurrence_id authored path
    observe (λ s. s.reads)
        λ previous. do
          modify λ s. record s { reads = [] }
          made ← body id
          leave_block id authored path made
          modify λ s. record s { reads = extend s.reads previous }
          pure made.1

  -- The guards at the start of a turn, which end the loop over the blocks.
  unfoldable pub guarded :
      String
      → Action (List ContextItem)
      → Outcome AccessError (Unit {0})
      → Action (List ContextItem)
  guarded path rest (err e) s = gave (ok []) s
  guarded path rest (ok _) s =
      if leb given.limits.max_items (length s.trace)
      then gave (ok []) (note path "Context trace exceeds its item budget" s)
      else rest s

  unfoldable mutual
    unfolding enter_block guarded choose group_items for_each_value emit_value

    pub make_block : ContextBlock → String → String → Action Made
    make_block (ContextBlock.group authored label within) path id = plain (
        count_output given path >>= λ counted.
        group_items (blocks_from within 0) id label path counted)
    make_block (ContextBlock.emit authored role format value) path id =
        plain (attempt (expression given outside fuel value path) (emit_value id role format path))
    make_block (ContextBlock.branch authored condition chosen otherwise) path id =
        attempt (predicate given outside fuel condition (path <> ".condition"))
          (choose (blocks_from chosen 0) (blocks_from otherwise 0) path)
    make_block (ContextBlock.for_each authored value name within) path id = plain (
        attempt (expression given outside fuel value (path <> ".value"))
          (for_each_value (blocks_from within 0) authored name path))

    -- `Evaluator::blocks`, from an index on
    pub blocks_from : ContextBlocks → ℕ → String → Action (List ContextItem)
    blocks_from no_blocks i path = pure []
    blocks_from (block b rest) i path =
        let here = path <> "[" <> decimal i <> "]" in
        attempt (tick given here) (
          guarded here (
            enter_block (block_id b) here (make_block b here) >>= λ out.
            blocks_from rest (suc i) path >>= λ later. pure (out ++ later)))
