-- ===== src/Context/Evaluate/Runs.antt =====
-- rust/crates/zf-context/src/context.rs: what every method of the `Evaluator` keeps, as a relation
-- between the states before and after it, and the rules by which a method's steps keep it.
pub mod Steps
pub mod Scopes
pub mod Loops
pub mod Terms
pub mod Results
pub mod Required
pub mod Fresh
pub mod Occurrences
pub mod Delivers
pub mod Turns
pub mod Leaving
pub mod Program
pub mod Circles
pub mod Looped
pub mod Arms
pub mod Collections
pub mod Expressions
pub mod Blocks
use zedflow.Base.{
  ℕ, suc, ◌+◌, ◌-◌, ◌≤◌, ◌<◌, String, ◌≡◌, refl, sym, ◌∙◌, ap, subst, inl, inr, Bool, true, false,
  ◌||◌, Option, none, some, List, [], ◌∷◌, arith, leb, ltb, if◌then◌else◌, contains, length, str_eq,
  eq_iff, eq_refl, Bool-cases, Option-cases, is_some,
}
use zedflow.Base.Outcome.{Outcome, ok, err}
use zedflow.Base.Maps
use zedflow.Base.Maps.{Map, get-insert, get-erase, contains_key}
use zedflow.Base.Sets
use zedflow.Base.Sets.{Set}
use zedflow.Context.Evaluate.Values.{ContextValue}
use zedflow.Context.Evaluate.State.{
  AccessError, missing, invalid, ContextIteration, Inputs, Outside, Evaluator, Answer, gave,
  panicked, exhausted, Action, pure, fail, and_then, ◌>>=◌, handled, attempt, modify, observe,
  answer_with, or_invalid, restore, bind_item, unbind_item, scoped,
}

-- A call that returned, with a fact about its result and the state; it neither panicked nor ran out.
abbrev pub Ends : {A : Type 0} → (Outcome AccessError A → Evaluator → Type 0) → Answer A → Type 0
Ends Q (gave o s) = Q o s
Ends Q panicked = ⊥
Ends Q exhausted = ⊥

-- Every member of the first set is in the second.
abbrev pub Subset : Set → Set → Type 0
Subset a b = (x : String) → contains a x ≡ true → contains b x ≡ true

-- Both maps find the same.
abbrev pub Agree : {V : Type 0} → Map V → Map V → Type 0
Agree m n = (k : String) → Maps.get m k ≡ Maps.get n k

-- What only grows, and the loops that the state is in.
pub record Moves (s t : Evaluator) : Type 0 where
  pub steps : s.steps ≤ t.steps
  pub all_reads : Subset s.all_reads t.all_reads
  pub output_ids : Subset s.output_ids t.output_ids
  pub iterations : t.iterations ≡ s.iterations
  pub output_items : s.output_items ≤ t.output_items
  pub output_bytes : s.output_bytes ≤ t.output_bytes

-- The effect of a whole method: the variables and their sources are what they were.
pub record Runs (s t : Evaluator) : Type 0 where
  pub moves : Moves s t
  pub variables : Agree t.variables s.variables
  pub sources : Agree t.variable_sources s.variable_sources

pub Moves-trans : (s t u : Evaluator) → Moves s t → Moves t u → Moves s u
Moves-trans s t u a b = record {
  steps = omega (arith, a.steps, b.steps);
  all_reads = λ x h. b.all_reads x (a.all_reads x h);
  output_ids = λ x h. b.output_ids x (a.output_ids x h);
  iterations = b.iterations ∙ a.iterations;
  output_items = omega (arith, a.output_items, b.output_items);
  output_bytes = omega (arith, a.output_bytes, b.output_bytes);
}

pub Runs-trans : (s t u : Evaluator) → Runs s t → Runs t u → Runs s u
Runs-trans s t u a b = record {
  moves = Moves-trans s t u a.moves b.moves;
  variables = λ k. b.variables k ∙ a.variables k;
  sources = λ k. b.sources k ∙ a.sources k;
}

restored :
    {V : Type 0} (m n : Map V) (name : String) (o : Option V)
    → Maps.get m name ≡ o
    → ((k : String) → str_eq name k ≡ false → Maps.get n k ≡ Maps.get m k)
    → Agree (restore name o n) m
unfolding restore
restored m n name (some v) e same k = elim (Bool-cases (str_eq name k)) [
  | inl here ↦
      let named : name ≡ k = (eq_iff name k).0 here in
      let found = ap (Maps.get m) named in
      let law = get-insert n name k v ∙ ap (λ b. if b then some v else Maps.get n k) here in cc
  | inr other ↦
      get-insert n name k v ∙ ap (λ b. if b then some v else Maps.get n k) other ∙ same k other
]
restored m n name none e same k = elim (Bool-cases (str_eq name k)) [
  | inl here ↦
      let named : name ≡ k = (eq_iff name k).0 here in
      let found = ap (Maps.get m) named in
      let law = get-erase n name k ∙ ap (λ b. if b then none else Maps.get n k) here in cc
  | inr other ↦ get-erase n name k ∙ ap (λ b. if b then none else Maps.get n k) other ∙ same k other
]

-- An entry that was put over another one is restored to it.
pub restore-Agree :
    {V : Type 0} (m n : Map V) (name : String)
    → ((k : String) → str_eq name k ≡ false → Maps.get n k ≡ Maps.get m k)
    → Agree (restore name (Maps.get m name) n) m
restore-Agree m n name same k = restored m n name (Maps.get m name) refl same k

module _ (given : Inputs) where
  -- A name that the strategy requires.
  abbrev pub IsRequired : String → Type 0
  IsRequired name = contains_key given.requirements name ≡ true

  -- The budgets are kept, and what an item may say that it was read from was read.
  pub record Within (s : Evaluator) : Type 0 where
    pub steps : s.steps ≤ given.limits.max_steps
    pub derived : s.derived_bytes ≤ given.limits.max_bytes
    pub output : s.output_bytes ≤ given.limits.max_bytes
    pub items : s.output_items ≤ given.limits.max_items
    pub trace : length s.trace ≤ given.limits.max_items
    pub reads : Subset s.reads s.all_reads
    pub sources :
        (k : String) (xs : Set) → Maps.get s.variable_sources k ≡ some xs → Subset xs s.all_reads

  -- An unavailable resource is one that the strategy requires.
  abbrev pub Known : {A : Type 0} → Outcome AccessError A → Type 0
  Known (ok a) = Unit
  Known (err (missing name)) = IsRequired name
  Known (err invalid) = Unit

  abbrev pub After : {A : Type 0} → Evaluator → Outcome AccessError A → Evaluator → Type 0
  After s o t = Known o × Runs s t × Within t

  -- From a state within its budgets, with more fuel than the steps that are left, a method returns.
  unfoldable pub Safe : {A : Type 0} → ℕ → Action A → Type 0
  Safe n m =
      (s : Evaluator) → Within s → given.limits.max_steps < s.steps + n → Ends (After s) (m s)

  pub Runs-refl : (s : Evaluator) → Runs s s
  Runs-refl s = record {
    moves = record {
      steps = omega arith;
      all_reads = λ x h. h;
      output_ids = λ x h. h;
      iterations = refl;
      output_items = omega arith;
      output_bytes = omega arith;
    };
    variables = λ k. refl;
    sources = λ k. refl;
  }

  pub After-first :
      {A : Type 0} (s t : Evaluator) (r : Answer A) → Runs s t → Ends (After t) r → Ends (After s) r
  After-first s t (gave o u) first (known, runs, within) =
      (known, Runs-trans s t u first runs, within)
  After-first s t panicked first ends = ends
  After-first s t exhausted first ends = ends

  pub fuel_left :
      (n : ℕ) (s t : Evaluator)
      → Runs s t
      → given.limits.max_steps < s.steps + n
      → given.limits.max_steps < t.steps + n
  fuel_left n s t runs fuel = omega (arith, runs.moves.steps)

  module _ {A : Type 0} (n : ℕ) where
    pub safe-pure : (a : A) → Safe n (pure a)
    unfolding Safe
    safe-pure a s within fuel = (tt, Runs-refl s, within)

    pub safe-or_invalid : (o : Option A) → Safe n (or_invalid o)
    unfolding Safe
    safe-or_invalid none s within fuel = (tt, Runs-refl s, within)
    safe-or_invalid (some a) s within fuel = (tt, Runs-refl s, within)

  module _ {A B : Type 0} (n : ℕ) where
    pub and_then_ends :
        (s : Evaluator) (r : Answer A) (f : A → Action B)
        → Ends (After s) r
        → ((a : A) (t : Evaluator) → Runs s t → Within t → Ends (After t) (f a t))
        → Ends (After s) (and_then r f)
    unfolding and_then
    and_then_ends s (gave (ok a) t) f (_, runs, within) next =
        After-first s t (f a t) runs (next a t runs within)
    and_then_ends s (gave (err (missing name)) t) f ends next = ends
    and_then_ends s (gave (err invalid) t) f ends next = ends
    and_then_ends s panicked f ends next = ends
    and_then_ends s exhausted f ends next = ends

    -- `f(m?)`
    pub safe-bind :
        (m : Action A) (f : A → Action B) → Safe n m → ((a : A) → Safe n (f a)) → Safe n (m >>= f)
    unfolding Safe
    safe-bind m f first next s within fuel =
        and_then_ends s (m s) f (first s within fuel)
          (λ a t runs within'. next a t within' (fuel_left n s t runs fuel))

    -- A read of the state.
    pub safe-observe :
        (look : Evaluator → A) (f : A → Action B)
        → ((a : A) → Safe n (f a))
        → Safe n (observe look f)
    unfolding Safe
    safe-observe look f each s within fuel = each (look s) s within fuel

    handled_ends :
        (s : Evaluator) (r : Answer A) (f : Outcome AccessError A → Action B)
        → given.limits.max_steps < s.steps + n
        → Ends (After s) r
        → ((o : Outcome AccessError A) → Known o → Safe n (f o))
        → Ends (After s) (handled r f)
    unfolding handled Safe
    handled_ends s (gave o t) f fuel (known, runs, within) next =
        After-first s t (f o t) runs (next o known t within (fuel_left n s t runs fuel))
    handled_ends s panicked f fuel ends next = ends
    handled_ends s exhausted f fuel ends next = ends

    pub safe-attempt :
        (m : Action A) (f : Outcome AccessError A → Action B)
        → Safe n m
        → ((o : Outcome AccessError A) → Known o → Safe n (f o))
        → Safe n (attempt m f)
    unfolding Safe
    safe-attempt m f first next s within fuel =
        handled_ends s (m s) f fuel (first s within fuel) next
