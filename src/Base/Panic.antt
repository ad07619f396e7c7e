-- ===== src/Base/Panic.antt =====
-- Code that may panic, or that a bound on its recursion may stop: `none` is such an end.
use mathlib.Core.Option.{Option, none, some}
use mathlib.Core.List.{List, [], ◌∷◌}

infixl 5 ◌>>=◌
abbrev pub ◌>>=◌ {ℓ κ} : {A : Type ℓ} {B : Type κ} → Option A → (A → Option B) → Option B
none >>= f = none
some a >>= f = f a

module _ {ℓ κ} {A : Type ℓ} {S : Type κ} where
  -- `for x in xs { … }` over a state
  abbrev pub fold_each : (A → S → Option S) → List A → S → Option S
  fold_each step [] s = some s
  fold_each step (x ∷ xs) s = step x s >>= λ t. fold_each step xs t
