-- ===== src/Context/Evaluate/State.antt =====
-- rust/crates/zf-context/src/context.rs: the state of the `Evaluator` and its small operations.
-- A method of it is a function from the state to an answer; `?` is the `do` of these functions.
use Prim.Native.Nat.{Ordering}
use zedflow.Base.{
  ℕ, ◌+◌, ◌-◌, String, Bool, true, false, Option, none, some, List, [], ◌∷◌, ◌++◌, leb, ltb,
  if◌then◌else◌, length,
}
use zedflow.Base.Outcome.{Outcome, ok, err}
use zedflow.Base.Maps
use zedflow.Base.Maps.{Map}
use zedflow.Base.Sets
use zedflow.Base.Sets.{Set}
use zedflow.Json.{Value}
use zedflow.Core.Diagnostic.{Diagnostic, diagnostic}
use zedflow.Core.Types.{DataType, TypeRegistry}
use zedflow.Context.Window.Capture.{ResourceNeed}
use zedflow.Context.Language.{ContextLibrary}
use zedflow.Context.Evaluate.Values.{ContextValue, array_len, measured_bytes}
use zedflow.Context.Evaluate.Values.Numbers.{Floats}

pub data AccessError : Type 0 where
  missing : String → AccessError
  invalid : AccessError

pub record EvaluationLimits : Type 0 where
  pub max_steps : ℕ
  pub max_items : ℕ
  pub max_bytes : ℕ

-- `EvaluationLimits::default`
abbrev pub default_limits : EvaluationLimits
default_limits = record { max_steps = 100000; max_items = 10000; max_bytes = 16777216 }

pub record ContextIteration : Type 0 where
  pub block_id : String
  pub index : ℕ

pub record ContextTrace : Type 0 where
  pub id : String
  pub block_id : String
  pub path : String
  pub sources : List String
  pub iterations : List ContextIteration
  pub output_ids : List String
  pub outcome : Option Bool

-- What an evaluator borrows and never changes: `strategy.requirements`, the resources, the types,
-- the library and the limits.
pub record Inputs : Type 0 where
  pub requirements : Map DataType
  pub resources : Map Value
  pub types : TypeRegistry
  pub library : ContextLibrary
  pub limits : EvaluationLimits

-- What the evaluator takes from Rust's and serde's libraries: the `==` of JSON values, the sizes in
-- which `to_writer` writes one, its text by `to_string`, the `{:?}` form of a type, `f64`, and the
-- `sort_by` of slices on values with their keys, which does not panic where the order is total.
pub record Outside : Type 0 where
  pub value_eq : Value → Value → Bool
  pub chunks : Value → List ℕ
  pub encode : Value → Option String
  pub debug : DataType → String
  pub floats : Floats
  pub sort_by :
      (ContextValue × ContextValue → ContextValue × ContextValue → Ordering)
      → List (ContextValue × ContextValue)
      → List (ContextValue × ContextValue)

-- The fields of an `Evaluator` that it changes.
pub record Evaluator : Type 0 where
  pub needs : Map ResourceNeed
  pub diagnostics : List Diagnostic
  pub validated : Set
  pub variables : Map ContextValue
  pub steps : ℕ
  pub output_bytes : ℕ
  pub derived_bytes : ℕ
  pub reads : Set
  pub all_reads : Set
  pub variable_sources : Map Set
  pub trace : List ContextTrace
  pub iterations : List ContextIteration
  pub output_ids : Set
  pub output_items : ℕ

-- A call that returned with its result and the state, one that panicked, or one whose bound on the
-- recursion was too small, which is no outcome of the code.
pub data Answer (A : Type 0) : Type 0 where
  gave : Outcome AccessError A → Evaluator → Answer A
  panicked exhausted : Answer A

abbrev pub Action : Type 0 → Type 0
Action A = Evaluator → Answer A

abbrev pub pure : {A : Type 0} → A → Action A
pure a s = gave (ok a) s

abbrev pub fail : {A : Type 0} → AccessError → Action A
fail e s = gave (err e) s

module _ {A B : Type 0} where
  unfoldable pub and_then : Answer A → (A → Action B) → Answer B
  and_then (gave (ok a) s) f = f a s
  and_then (gave (err e) s) f = gave (err e) s
  and_then panicked f = panicked
  and_then exhausted f = exhausted

  -- `f(m?)`
  infixl 5 ◌>>=◌
  abbrev pub ◌>>=◌ : Action A → (A → Action B) → Action B
  (m >>= f) s = and_then (m s) f

  infixl 5 ◌>>◌
  abbrev pub ◌>>◌ : Action A → Action B → Action B
  m >> k = m >>= λ _. k

  unfoldable pub handled : Answer A → (Outcome AccessError A → Action B) → Answer B
  handled (gave o s) f = f o s
  handled panicked f = panicked
  handled exhausted f = exhausted

  -- `f(m)`: the result is bound with no `?`.
  abbrev pub attempt : Action A → (Outcome AccessError A → Action B) → Action B
  attempt m f s = handled (m s) f

abbrev pub modify : (Evaluator → Evaluator) → Action (Unit {0})
modify f s = gave (ok tt) (f s)

-- A read of the state.
abbrev pub observe : {A B : Type 0} → (Evaluator → A) → (A → Action B) → Action B
observe look f s = f (look s) s

abbrev pub answer_with : {A : Type 0} → Outcome AccessError A → Action A
answer_with o s = gave o s

-- `ok_or(AccessError::Invalid)?`
abbrev pub or_invalid : {A : Type 0} → Option A → Action A
or_invalid none = fail invalid
or_invalid (some a) = pure a

-- `diagnostics.push(d)`
abbrev pub push : Diagnostic → Evaluator → Evaluator
push d s = record s { diagnostics = s.diagnostics ++ d ∷ [] }

-- `Evaluator::error`, less its result
unfoldable pub note : String → String → Evaluator → Evaluator
note path message s =
    if ltb (length s.diagnostics) 64 then push (diagnostic "evaluation_limit" path message) s else s

-- `return Err(self.error(path, message))`
abbrev pub error : {A : Type 0} → String → String → Action A
error path message s = gave (err invalid) (note path message s)

-- `ok_or_else(|| self.error(path, message))`
abbrev pub or_error : {A : Type 0} → Option A → String → String → Action A
or_error (some a) path message = pure a
or_error none path message = error path message

-- `restore_variable` and `restore_variable_sources`
unfoldable pub restore {ℓ} : {V : Type ℓ} → String → Option V → Map V → Map V
restore name (some previous) m = Maps.insert m name previous
restore name none m = Maps.erase m name

module _ (given : Inputs) where
  unfoldable pub tick : String → Action (Unit {0})
  tick path s =
      if leb given.limits.max_steps s.steps
      then error path "Context evaluation exceeded its operation budget" s
      else gave (ok tt) (record s { steps = s.steps + 1 })

  unfoldable pub items : ContextValue → String → Action ℕ
  items v path = or_invalid (array_len v) >>= λ count.
      if ltb given.limits.max_items count
      then error path "Collection exceeds the item budget"
      else pure count

  unfoldable pub charge : ℕ → String → Action (Unit {0})
  charge size path s =
      if ltb (given.limits.max_bytes - s.derived_bytes) size
      then error path "Derived values exceed the allocation budget" s
      else gave (ok tt) (record s { derived_bytes = s.derived_bytes + size })

  unfoldable pub bytes : (Value → List ℕ) → ContextValue → String → Action ℕ
  bytes chunks v path =
      or_error (measured_bytes chunks v given.limits.max_bytes) path
        "Context value exceeds its byte budget"

  unfoldable pub count_output : String → Action Bool
  count_output path s =
      if leb given.limits.max_items s.output_items
      then gave (ok false) (note path "Prepared window exceeds its item budget" s)
      else gave (ok true) (record s { output_items = s.output_items + 1 })

-- `variables.insert` and `variable_sources.insert` for an item of a collection
abbrev pub bind_item : String → ContextValue → Set → Evaluator → Evaluator
bind_item name v sources s = record s {
  variables = Maps.insert s.variables name v;
  variable_sources = Maps.insert s.variable_sources name sources;
}

-- Both are restored to what they were in `before`.
abbrev pub unbind_item : String → Evaluator → Evaluator → Evaluator
unbind_item name before s = record s {
  variables = restore name (Maps.get before.variables name) s.variables;
  variable_sources = restore name (Maps.get before.variable_sources name) s.variable_sources;
}

-- The call of the body for one item, after which the two entries are restored, whatever it gave.
unfoldable pub scoped : {A : Type 0} → String → ContextValue → Set → Action A → Action A
scoped name v sources m before =
    handled (m (bind_item name v sources before)) λ o s. gave o (unbind_item name before s)

-- `reads.extend(sources)`
unfoldable pub extend : Set → Set → Set
extend set [] = set
extend set (x ∷ xs) = extend (Sets.insert set x) xs
