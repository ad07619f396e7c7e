-- ===== src/Context/Evaluate/Runs/Occurrences.antt =====
-- rust/crates/zf-context/src/context.rs: the identifiers that `occurrence_id` gives in loops. The
-- evaluator starts with those of all blocks of the program, and no method of it takes one back.
use zedflow.Base.{String, ◌≡◌, ◌≢◌, true, false, [], contains}
use zedflow.Base.Outcome.{Outcome, ok, err}
use zedflow.Context.Language.{ContextBlocks, block_ids}
use zedflow.Context.Evaluate.State.{AccessError, Evaluator}
use zedflow.Context.Evaluate.Program.{fresh}
use zedflow.Context.Evaluate.Runs.{Subset}

-- A state of an evaluation of the program: the identifiers of its blocks are still taken.
abbrev pub KeepsAuthored : ContextBlocks → Evaluator → Type 0
KeepsAuthored program s = Subset (fresh (block_ids program [])).output_ids s.output_ids

-- An answer with an identifier that is taken afterwards, and that is neither a block's nor the other.
abbrev pub IsOccurrence :
    ContextBlocks → String → Evaluator → Outcome AccessError String → Evaluator → Type 0
IsOccurrence program other s (ok id) t =
    (contains (block_ids program []) id ≡ false)
    × (id ≢ other)
    × (contains t.output_ids id ≡ true)
    × Subset s.output_ids t.output_ids
IsOccurrence program other s (err e) t = ⊥
