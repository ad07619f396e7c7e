-- ===== src/Context/Check/Sound.antt =====
-- rust/crates/zf-context/src/context.rs: what each method of the `Checker` keeps, and the rules by
-- which a method's steps keep it.
pub mod Reports
pub mod Scopes
pub mod Terms
pub mod Arms
pub mod Recursion
pub mod Conditions
pub mod Blocks
pub mod Marked
pub mod Identifiers
use zedflow.Base.{
  contains, ℕ, zero, suc, ◌+◌, ◌≤◌, String, ◌<>◌, ◌≡◌, refl, sym, inl, inr, Bool, true, false, not,
  ◌&&◌, Option, none, some, List, [], ◌∷◌, ◌++◌, arith, ltb, if◌then◌else◌, length, length-append,
  str_eq, All, Bool-cases, Option-cases, get_or, snoc-ne-nil,
}
use zedflow.Base.Text.{is_blank, strip_prefix}
use zedflow.Base.Outcome.{Outcome, ok, err}
use zedflow.Base.Maps
use zedflow.Base.Maps.{Map, values, All-get, All-insert, All-erase}
use zedflow.Base.Sets.{Set}
use zedflow.Core.Diagnostic.{Diagnostic}
use zedflow.Core.Types.{DataType, or_errors, validate_type}
use zedflow.Context.Language.{LibraryKind, ContextFunction, function_of}
use zedflow.Context.Evaluate.State.{Inputs}
use zedflow.Context.Evaluate.Runs.Required.{Requires}
use zedflow.Context.Check.{
  Subject, Checker, Check, answer, ◌>>=◌, ◌>>◌, Typing, typed, push_limited, error, error_if,
  append_one, append, appended, depth, max_nodes, data_type, has_key,
}
use zedflow.Context.Check.Terms.{reported}
use zedflow.Context.Check.Terms.Names.{restore_type, with_variable, error_at}
use zedflow.Context.Check.Grounded.{Found, IsGrounded, validate_type-IsGrounded}

abbrev pub most_diagnostics : ℕ
most_diagnostics = 64

-- The inputs are those of an evaluation of what is checked; something else is known beforehand.
module _ (Ready : Type 0) (inputs : Inputs) (given : Subject) where
  -- What an accepted function is: its output is a type that unfolds, and its body is as required.
  abbrev pub IsKnown : ContextFunction → Type 0
  IsKnown f = IsGrounded given.types f.output × Requires inputs f.body

  pub record Knows (c : Checker) : Type 0 where
    pub ready : Ready
    pub linked : given.linked ≡ true
    pub variables : All (IsGrounded given.types) (values c.variables)
    pub done :
        (kind : LibraryKind) (name : String) (f : ContextFunction)
        → has_key given c.functions_done (kind, name) ≡ true
        → function_of given.library kind name ≡ some f
        → IsKnown f

  -- The state after a method has at most 64 diagnostics if it had before, and none only if it had
  -- none before; then its identifiers are kept and, under a hypothesis, its result is as stated.
  pub record Sound {A : Type 0} (H : Type 0) (P : A → Type 0) (m : Check A) : Type 0 where
    pub bound :
        (c : Checker)
        → length c.diagnostics ≤ most_diagnostics
        → length (m c).1.diagnostics ≤ most_diagnostics
    pub kept : (c : Checker) → (m c).1.diagnostics ≡ [] → c.diagnostics ≡ []
    pub grown :
        (c : Checker) (x : String)
        → (m c).1.diagnostics ≡ []
        → contains c.ids x ≡ true
        → contains (m c).1.ids x ≡ true
    pub sound : (c : Checker) → (m c).1.diagnostics ≡ [] → Knows c → H → P (m c).0 × Knows (m c).1

module _ {Ready : Type 0} {inputs : Inputs} {given : Subject} {H : Type 0} where
  pub sound-answer :
      {A : Type 0} {P : A → Type 0} (a : A) → (H → P a) → Sound Ready inputs given H P (answer a)
  sound-answer a p = record {
    bound = λ c h. h;
    kept = λ c h. h;
    grown = λ c x h i. i;
    sound = λ c h k g. (p g, k);
  }

  pub sound-weaken :
      {A : Type 0} {G : Type 0} {P Q : A → Type 0} {m : Check A}
      → (H → G)
      → ((a : A) → H → Q a → P a)
      → Sound Ready inputs given G Q m
      → Sound Ready inputs given H P m
  sound-weaken g p s = record {
    bound = s.bound;
    kept = s.kept;
    grown = s.grown;
    sound = λ c h k hyp. let (q, k') = s.sound c h k (g hyp) in (p _ hyp q, k');
  }

  -- The hypothesis is kept in the result.
  pub holding :
      {A : Type 0} {P : A → Type 0} {m : Check A}
      → Sound Ready inputs given H P m
      → Sound Ready inputs given H (λ a. H × P a) m
  holding s = sound-weaken (λ h. h) (λ a h p. (h, p)) s

  infixl 1 ◌⟫◌
  pub ◌⟫◌ :
      {A B : Type 0} {P : A → Type 0} {Q : B → Type 0} {m : Check A} {f : A → Check B}
      → Sound Ready inputs given H P m
      → ((a : A) → Sound Ready inputs given (H × P a) Q (f a))
      → Sound Ready inputs given H Q (m >>= f)
  unfolding ◌>>=◌
  ◌⟫◌ {m} first later = record {
    bound = λ c h. (later (m c).0).bound (m c).1 (first.bound c h);
    kept = λ c h. first.kept c ((later (m c).0).kept (m c).1 h);
    grown = λ c x h i.
        (later (m c).0).grown (m c).1 x h (first.grown c x ((later (m c).0).kept (m c).1 h) i);
    sound = λ c h k hyp.
        let (p, k') = first.sound c ((later (m c).0).kept (m c).1 h) k hyp in
        (later (m c).0).sound (m c).1 h k' (hyp, p);
  }
