-- ===== src/Base/Outcome.antt =====
-- Rust's `Result`, with the error's type as a parameter, and `?` as `do`.
use mathlib.Core.Path.{◌≡◌, refl}
use mathlib.Core.Logic.{◌⊎◌, inl, inr}
use mathlib.Core.Bool.{Bool, true, false}
use mathlib.Core.Option.{Option, none, some}
use mathlib.Core.List.{List, [], ◌∷◌}

pub data Outcome {ℓ} (E A : Type ℓ) : Type ℓ where
  ok : A → Outcome E A
  err : E → Outcome E A

module _ {ℓ} {E A B : Type ℓ} where
  infixl 5 ◌>>=◌
  abbrev pub ◌>>=◌ : Outcome E A → (A → Outcome E B) → Outcome E B
  ok a >>= f = f a
  err e >>= f = err e

  infixl 5 ◌>>◌
  abbrev pub ◌>>◌ : Outcome E A → Outcome E B → Outcome E B
  m >> k = m >>= λ _. k

  -- Inversion of a chain that succeeds.
  pub >>=-eq-ok :
      (first : Outcome E A) (rest : A → Outcome E B) {answer : B}
      → (first >>= rest) ≡ ok answer
      → (here : A) × (first ≡ ok here) × (rest here ≡ ok answer)
  >>=-eq-ok (err _) rest got = cc
  >>=-eq-ok (ok here) rest got = (here, refl, got)

module _ {E : Type 0} where
  -- `ensure!`, and an early `return Err(e)` under the negated test
  abbrev pub ensure : Bool → E → Outcome E (Unit {0})
  ensure true e = ok tt
  ensure false e = err e

  -- `ok_or_else`
  abbrev pub or_fail : {A : Type 0} → Option A → E → Outcome E A
  or_fail none e = err e
  or_fail (some a) e = ok a

  pub ensure-eq-ok : (b : Bool) (e : E) → ensure b e ≡ ok tt → b ≡ true
  ensure-eq-ok true e h = refl
  ensure-eq-ok false e h = cc

  -- `for x in xs { step(x)?; }`
  abbrev pub for_each : {A : Type 0} → (A → Outcome E (Unit {0})) → List A → Outcome E (Unit {0})
  for_each step [] = ok tt
  for_each step (x ∷ xs) = step x >>= λ _. for_each step xs

-- Inversion of a step that gives nothing but its success.
pub >>-eq-ok :
    {E B : Type 0} (m : Outcome E (Unit {0})) (k : Outcome E B) {b : B}
    → (m >>= λ _. k) ≡ ok b
    → (m ≡ ok tt) × (k ≡ ok b)
>>-eq-ok (ok tt) k h = (refl, h)
>>-eq-ok (err e) k h = cc

pub ok-injective : {E A : Type 0} (a b : A) → ◌≡◌ {A = Outcome E A} (ok a) (ok b) → a ≡ b
ok-injective a b h = cc

pub or_fail-eq-ok : {E A : Type 0} (o : Option A) (e : E) {a : A} → or_fail o e ≡ ok a → o ≡ some a
or_fail-eq-ok none e h = cc
or_fail-eq-ok (some x) e h = cc

pub Outcome-cases :
    {E A : Type 0} (m : Outcome E A) → ((a : A) × (m ≡ ok a)) ⊎ ((e : E) × (m ≡ err e))
Outcome-cases (ok a) = inl (a, refl)
Outcome-cases (err e) = inr (e, refl)
