-- ===== src/Context/Evaluate/Terms/Lists.antt =====
-- rust/crates/zf-context/src/context.rs: the loops, orders and groups of `keyed`.
use zedflow.Base.{
  ℕ, zero, suc, String, ◌<>◌, Bool, true, false, Option, none, some, List, [], ◌∷◌, ◌++◌, length,
  get_or,
}
use zedflow.Base.Outcome.{Outcome, ok, err}
use zedflow.Base.Text.{strip_prefix}
use zedflow.Base.Maps
use zedflow.Base.Maps.{Map}
use zedflow.Core.Diagnostic.{Diagnostic}
use zedflow.Context.Evaluate.Values.{ContextValue, to_values, to_fields}
use zedflow.Context.Evaluate.State.{invalid, Evaluator, gave, exhausted, Action, pure, ◌>>=◌}

-- `for index in i..i + n { … }`, with what each turn adds to the output
unfoldable pub collect : {B : Type 0} → (ℕ → Action (List B)) → ℕ → ℕ → Action (List B)
collect step i zero = pure []
collect step i (suc n) = step i >>= λ here. collect step (suc i) n >>= λ later. pure (here ++ later)

-- The outcome of a check against a type, with what its errors do to the state.
unfoldable pub verdict :
    (List Diagnostic → Evaluator → Evaluator)
    → Option (Outcome (List Diagnostic) (Unit {0}))
    → Action (Unit {0})
verdict report none s = exhausted
verdict report (some (ok _)) s = gave (ok tt) s
verdict report (some (err ds)) s = gave (err invalid) (report ds s)

-- `errors.into_iter().take(n)`
unfoldable pub first {ℓ} : {A : Type ℓ} → ℕ → List A → List A
first zero xs = []
first (suc n) [] = []
first (suc n) (x ∷ xs) = x ∷ first n xs

abbrev pub extended : List Diagnostic → Evaluator → Evaluator
extended ds s = record s { diagnostics = s.diagnostics ++ ds }

abbrev pub construct_error : String → Diagnostic → Diagnostic
construct_error path d = record d { path = path <> ":" <> d.path }

abbrev pub resource_error : String → String → Diagnostic → Diagnostic
resource_error path name d = record d {
  path = path <> ":resources." <> name <> get_or (strip_prefix "$" d.path) d.path;
}

-- What a turn of a filter adds to the output.
abbrev pub kept : ContextValue → Bool → List ContextValue
kept v true = v ∷ []
kept v false = []

-- A value with its key.
abbrev pub Keyed : Type 0
Keyed = ContextValue × ContextValue

-- The groups of `group_by` with the position of each encoded key.
abbrev pub Groups : Type 0
Groups = List (ContextValue × List ContextValue) × Map ℕ

unfoldable pub push_at :
    ℕ
    → ContextValue
    → List (ContextValue × List ContextValue)
    → List (ContextValue × List ContextValue)
push_at n v [] = []
push_at zero v ((k, vs) ∷ groups) = (k, vs ++ v ∷ []) ∷ groups
push_at (suc n) v (g ∷ groups) = g ∷ push_at n v groups

unfoldable pub enter_group : String → ContextValue → ContextValue → Option ℕ → Groups → Groups
unfolding push_at
enter_group encoded key v (some position) (groups, positions) =
    (push_at position v groups, positions)
enter_group encoded key v none (groups, positions) =
    (groups ++ (key, v ∷ []) ∷ [], Maps.insert positions encoded (length groups))

abbrev pub group_value : ContextValue × List ContextValue → ContextValue
group_value (key, members) =
    ContextValue.object
      (to_fields (("items", ContextValue.array (to_values members)) ∷ ("key", key) ∷ []))
