-- ===== src/Context/Evaluate/Runs/Fresh.antt =====
-- rust/crates/zf-context/src/context.rs: the loop of `occurrence_id` ends. Of the identifiers that it
-- tries each is longer than the one before, so a set refuses at most as many as it has members.
use Prim.Native.String.{count as chars}
use text.Mathlib.TextLemmas.{length-append}
use zedflow.Base.{
  ℕ, zero, suc, ◌+◌, ◌≤◌, ◌<◌, String, ◌<>◌, ◌≡◌, refl, ap, inl, inr, true, false, [], ◌∷◌, arith,
  leb, if◌then◌else◌, contains, length, str_eq, eq_iff, Bool-cases,
}
use zedflow.Base.Outcome.{Outcome, ok, err}
use zedflow.Base.Sets
use zedflow.Base.Sets.{Set, contains-insert}
use zedflow.Context.Window.Capture.{none_of}
use zedflow.Context.Evaluate.State.{AccessError, Evaluator}
use zedflow.Context.Evaluate.Blocks.Identities.{fresh_id, occurrence_id}
use zedflow.Context.Evaluate.Runs.{Ends}

-- How many members are at least so long.
longer : ℕ → Set → ℕ
longer m [] = 0
longer m (x ∷ xs) = (if leb m (chars x) then 1 else 0) + longer m xs

longer-le-length : (m : ℕ) (xs : Set) → longer m xs ≤ length xs
unfolding longer
longer-le-length m [] = omega arith
longer-le-length m (x ∷ xs) = ground (arith, longer-le-length m xs)

longer-suc : (m : ℕ) (xs : Set) → longer (suc m) xs ≤ longer m xs
unfolding longer
longer-suc m [] = omega arith
longer-suc m (x ∷ xs) = ground (arith, longer-suc m xs)

longer_member :
    (id : String) (xs : Set)
    → contains xs id ≡ true
    → longer (suc (chars id)) xs < longer (chars id) xs
unfolding longer
longer_member id [] h = cc
longer_member id (x ∷ xs) h = elim (Bool-cases (str_eq x id)) [
  | inl e ↦
      let same : chars x ≡ chars id = ap chars ((eq_iff x id).0 e) in
      ground (arith, same, longer-suc (chars id) xs)
  | inr e ↦ let later = longer_member id xs (ground (arith, e, h)) in ground (arith, later)
]

grows : (id : String) (xs : Set) → longer (chars (id <> "_")) xs ≡ longer (suc (chars id)) xs
grows id xs = ap (λ k. longer k xs) (omega (arith, length-append id "_"))

-- The identifier was not taken before, and the state differs in that it is taken.
abbrev pub Reserves : Evaluator → Outcome AccessError String → Evaluator → Type 0
Reserves s (ok id) t =
    (contains s.output_ids id ≡ false) × (t ≡ record s { output_ids = Sets.insert s.output_ids id })
Reserves s (err e) t = ⊥

fresh_id-ends :
    (fuel : ℕ) (id : String) (s : Evaluator)
    → longer (chars id) s.output_ids < fuel
    → Ends (Reserves s) (fresh_id fuel id s)
unfolding fresh_id
fresh_id-ends zero id s enough = ground arith
fresh_id-ends (suc fuel) id s enough = elim (Bool-cases (contains s.output_ids id)) [
  | inl e ↦ rw e (
      fresh_id-ends fuel (id <> "_") s
        (omega (arith, longer_member id s.output_ids e, grows id s.output_ids, enough)))
  | inr e ↦ rw e (e, refl)
]

-- In a loop, an identifier of an occurrence is always found; it was not among those that are taken,
-- and the state differs in that it is taken now.
pub occurrence_id-Reserves :
    (id path : String) (s : Evaluator)
    → none_of s.iterations ≡ false
    → Ends (Reserves s) (occurrence_id id path s)
unfolding occurrence_id
occurrence_id-Reserves id path s looping = rw looping (
    fresh_id-ends (suc (length s.output_ids)) (id <> "@" <> path) s
      (omega (arith, longer-le-length (chars (id <> "@" <> path)) s.output_ids)))
