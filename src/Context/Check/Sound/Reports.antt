-- ===== src/Context/Check/Sound/Reports.antt =====
-- rust/crates/zf-context/src/context.rs: the rules for what reports: `error`, `append`, `depth` and
-- `data_type`.
use zedflow.Base.{
  contains, ℕ, zero, suc, ◌+◌, ◌≤◌, String, ◌≡◌, refl, sym, inl, inr, Bool, true, false, not, ◌&&◌,
  Option, none, some, List, [], ◌∷◌, arith, ltb, if◌then◌else◌, length, length-append, str_eq,
  Bool-cases, snoc-ne-nil,
}
use zedflow.Base.Outcome.{Outcome, ok, err}
use zedflow.Core.Diagnostic.{Diagnostic}
use zedflow.Core.Types.{DataType, or_errors, validate_type}
use zedflow.Context.Evaluate.State.{Inputs}
use zedflow.Context.Check.{
  Subject, Checker, Check, answer, ◌>>=◌, Typing, typed, push_limited, error, error_if, append_one,
  append, appended, depth, max_nodes, data_type,
}
use zedflow.Context.Check.Terms.{reported}
use zedflow.Context.Check.Terms.Names.{error_at}
use zedflow.Context.Check.Grounded.{Found, IsGrounded, validate_type-IsGrounded}
use zedflow.Context.Check.Sound.{Sound, ◌⟫◌, most_diagnostics, sound-answer, sound-weaken}

push_limited-bound :
    (d : Diagnostic) (c : Checker)
    → length c.diagnostics ≤ most_diagnostics
    → length (push_limited d c).diagnostics ≤ most_diagnostics
unfolding push_limited
push_limited-bound d c h = elim (Bool-cases (ltb (length c.diagnostics) 64)) [
  | inl e ↦ rw e (ground (arith, h, e, length-append c.diagnostics (d ∷ [])))
  | inr e ↦ rw e h
]

pub push_limited-reports : (d : Diagnostic) (c : Checker) → ¬ ((push_limited d c).diagnostics ≡ [])
unfolding push_limited
push_limited-reports d c = elim (Bool-cases (ltb (length c.diagnostics) 64)) [
  | inl e ↦ rw e (snoc-ne-nil c.diagnostics d)
  | inr e ↦ rw e (λ h. absurd (ground (arith, h, e)))
]

module _ {Ready : Type 0} {inputs : Inputs} {given : Subject} {H : Type 0} where
  -- A method that only reports, on a state that differs in no diagnostic, has no other obligation.
  sound-report :
      {A : Type 0} {P : A → Type 0} {m : Check A} (d : Checker → Diagnostic)
      (at : Checker → Checker)
      → ((c : Checker) → (at c).diagnostics ≡ c.diagnostics)
      → ((c : Checker) → (m c).1 ≡ push_limited (d c) (at c))
      → Sound Ready inputs given H P m
  sound-report d at same runs = record {
    bound = λ c h. rw (runs c) (push_limited-bound (d c) (at c) (rw (same c) h));
    kept = λ c h. absurd (push_limited-reports (d c) (at c) (rw (runs c) at h));
    grown = λ c x h i. absurd (push_limited-reports (d c) (at c) (rw (runs c) at h));
    sound = λ c h k g. absurd (push_limited-reports (d c) (at c) (rw (runs c) at h));
  }

  pub sound-error :
      {P : Unit {0} → Type 0} (code path message : String)
      → Sound Ready inputs given H P (error code path message)
  unfolding error
  sound-error code path message = sound-report _ (λ c. c) (λ c. refl) (λ c. refl)

  pub sound-error_if :
      (b : Bool) (code path message : String)
      → Sound Ready inputs given H (λ _. b ≡ false) (error_if b code path message)
  unfolding error_if
  sound-error_if true code path message = sound-error code path message
  sound-error_if false code path message = sound-answer tt (λ _. refl)

  pub sound-error_at :
      {A : Type 0} (bad : A → Bool) (o : Option A) (code path message : String)
      → Sound Ready inputs given H (λ _. Unit) (error_at bad o code path message)
  unfolding error_at
  sound-error_at bad none code path message = sound-answer tt (λ _. tt)
  sound-error_at bad (some a) code path message =
      sound-weaken (λ h. h) (λ _ _ _. tt) (sound-error_if (bad a) code path message)

  -- The result at a depth that is refused.
  pub sound-blocked :
      {P : Bool → Type 0} (path : String) → Sound Ready inputs given H P (depth given zero path)
  unfolding depth ◌>>=◌ error
  sound-blocked path =
      sound-report _ (λ c. record c { nodes = c.nodes + 1 }) (λ c. refl) (λ c. refl)

  pub sound-depth :
      (n : ℕ) (path : String)
      → Sound Ready inputs given H (λ inside. inside ≡ true) (depth given n path)
  unfolding depth ◌>>=◌ error
  sound-depth zero path = sound-blocked path
  sound-depth (suc n) path = record {
    bound = λ c h. elim (Bool-cases (ltb max_nodes (c.nodes + 1))) [
      | inl e ↦ rw e (push_limited-bound _ (record c { nodes = c.nodes + 1 }) h)
      | inr e ↦ rw e h
    ];
    grown = λ c x. elim (Bool-cases (ltb max_nodes (c.nodes + 1))) [
      | inl e ↦ rw e (λ h. absurd (push_limited-reports _ (record c { nodes = c.nodes + 1 }) h))
      | inr e ↦ rw e (λ h i. i)
    ];
    kept = λ c. elim (Bool-cases (ltb max_nodes (c.nodes + 1))) [
      | inl e ↦ rw e (λ h. absurd (push_limited-reports _ (record c { nodes = c.nodes + 1 }) h))
      | inr e ↦ rw e (λ h. h)
    ];
    sound = λ c. elim (Bool-cases (ltb max_nodes (c.nodes + 1))) [
      | inl e ↦ rw e (λ h. absurd (push_limited-reports _ (record c { nodes = c.nodes + 1 }) h))
      | inr e ↦ rw e (λ h k g. (
        refl,
        record { ready = k.ready; linked = k.linked; variables = k.variables; done = k.done },
      ))
    ];
  }

  pub chosen :
      {A : Type 0} {P : A → Type 0} {m : Check A} (b : Bool) (a : A)
      → Sound Ready inputs given H P m
      → Sound Ready inputs given (H × (b ≡ true)) P (if b then m else answer a)
  chosen true a s = sound-weaken (λ h. h.0) (λ _ _ p. p) s
  chosen false a s = sound-answer a (λ h. cc)

  -- A method below a depth that the source allows.
  pub sound-enter :
      {A : Type 0} {P : A → Type 0} {m : Check A} (n : ℕ) (path : String) (a : A)
      → Sound Ready inputs given H P m
      → Sound Ready inputs given H P
          (depth given n path >>= λ inside. if inside then m else answer a)
  sound-enter n path a s = sound-depth n path ⟫ λ inside. chosen inside a s

  found_step :
      {B : Type 0} {Q : DataType → Type 0} {R : Option B → Type 0} {f : DataType → Check (Option B)}
      (o : Option DataType)
      → ((t : DataType) → Sound Ready inputs given (H × Q t) R (f t))
      → Sound Ready inputs given (H × Found Q o) R (elim o [ none ↦ answer none | some t ↦ f t ])
  found_step none each = sound-answer none (λ h. absurd h.1)
  found_step (some t) each = each t

  -- The rule for `?`
  pub sound-typed :
      {B : Type 0} {Q : DataType → Type 0} {R : Option B → Type 0} {m : Typing}
      {f : DataType → Check (Option B)}
      → Sound Ready inputs given H (Found Q) m
      → ((t : DataType) → Sound Ready inputs given (H × Q t) R (f t))
      → Sound Ready inputs given H R (typed m f)
  unfolding typed
  sound-typed first each = first ⟫ λ o. found_step o each

module _ (given : Subject) where
  append_one-bound :
      (path : String) (d : Diagnostic) (c : Checker)
      → length c.diagnostics ≤ most_diagnostics
      → length (append_one given path d c).diagnostics ≤ most_diagnostics
  unfolding append_one
  append_one-bound path d c h =
      elim (Bool-cases (not given.linked && str_eq d.code "unknown_type")) [
        | inl e ↦ rw e h
        | inr e ↦ rw e (push_limited-bound _ c h)
      ]

  append_one-kept :
      (path : String) (d : Diagnostic) (c : Checker)
      → (append_one given path d c).diagnostics ≡ []
      → c.diagnostics ≡ []
  unfolding append_one
  append_one-kept path d c = elim (Bool-cases (not given.linked && str_eq d.code "unknown_type")) [
    | inl e ↦ rw e (λ h. h)
    | inr e ↦ rw e (λ h. absurd (push_limited-reports _ c h))
  ]

  append_one-reports :
      (path : String) (d : Diagnostic) (c : Checker)
      → given.linked ≡ true
      → ¬ ((append_one given path d c).diagnostics ≡ [])
  unfolding append_one
  append_one-reports path d c linked = rw linked (push_limited-reports _ c)

  append-bound :
      (ds : List Diagnostic) (path : String) (c : Checker)
      → length c.diagnostics ≤ most_diagnostics
      → length (append given ds path c).diagnostics ≤ most_diagnostics
  unfolding append
  append-bound [] path c h = h
  append-bound (d ∷ ds) path c h = append-bound ds path _ (append_one-bound path d c h)

  append-kept :
      (ds : List Diagnostic) (path : String) (c : Checker)
      → (append given ds path c).diagnostics ≡ []
      → c.diagnostics ≡ []
  unfolding append
  append-kept [] path c h = h
  append-kept (d ∷ ds) path c h = append_one-kept path d c (append-kept ds path _ h)

  append-reports :
      (d : Diagnostic) (ds : List Diagnostic) (path : String) (c : Checker)
      → given.linked ≡ true
      → ¬ ((append given (d ∷ ds) path c).diagnostics ≡ [])
  unfolding append
  append-reports d ds path c linked h = append_one-reports path d c linked (append-kept ds path _ h)

  append_one-grown :
      (path : String) (d : Diagnostic) (c : Checker) (x : String)
      → (append_one given path d c).diagnostics ≡ []
      → contains c.ids x ≡ true
      → contains (append_one given path d c).ids x ≡ true
  unfolding append_one
  append_one-grown path d c x =
      elim (Bool-cases (not given.linked && str_eq d.code "unknown_type")) [
        | inl e ↦ rw e (λ h i. i)
        | inr e ↦ rw e (λ h. absurd (push_limited-reports _ c h))
      ]

  append-grown :
      (ds : List Diagnostic) (path : String) (c : Checker) (x : String)
      → (append given ds path c).diagnostics ≡ []
      → contains c.ids x ≡ true
      → contains (append given ds path c).ids x ≡ true
  unfolding append
  append-grown [] path c x h i = i
  append-grown (d ∷ ds) path c x h i =
      append-grown ds path _ x h (append_one-grown path d c x (append-kept ds path _ h) i)

module _ {Ready : Type 0} {inputs : Inputs} {given : Subject} {H : Type 0} where
  pub sound-appended :
      {o : Outcome (List Diagnostic) (Unit {0})} (ds : List Diagnostic) (path : String)
      → or_errors ds ≡ o
      → Sound Ready inputs given H (λ _. o ≡ ok tt) (appended given o path)
  unfolding appended
  sound-appended [] path e = rw (sym e) (sound-answer tt (λ _. refl))
  sound-appended (d ∷ ds) path e = rw (sym e) (record {
    bound = λ c h. append-bound given (d ∷ ds) path c h;
    kept = λ c h. append-kept given (d ∷ ds) path c h;
    grown = λ c x h i. append-grown given (d ∷ ds) path c x h i;
    sound = λ c h k g. absurd (append-reports given d ds path c k.linked h);
  })

  pub sound-reported :
      (o : Option (Outcome (List Diagnostic) (Unit {0}))) (path : String)
      → Sound Ready inputs given H (λ _. Unit) (reported given o path)
  unfolding reported append
  sound-reported none path = sound-answer tt (λ _. tt)
  sound-reported (some (ok x)) path = sound-answer tt (λ _. tt)
  sound-reported (some (err [])) path = sound-answer tt (λ _. tt)
  sound-reported (some (err (d ∷ ds))) path = record {
    bound = λ c h. append-bound given (d ∷ ds) path c h;
    kept = λ c h. append-kept given (d ∷ ds) path c h;
    grown = λ c x h i. append-grown given (d ∷ ds) path c x h i;
    sound = λ c h k g. absurd (append-reports given d ds path c k.linked h);
  }

  -- A type that is checked without a diagnostic is one whose names unfold.
  pub sound-data_type :
      (t : DataType) (path : String)
      → Sound Ready inputs given H (λ _. IsGrounded given.types t) (data_type given t path)
  unfolding data_type validate_type
  sound-data_type t path = sound-appended _ path refl ⟫ λ _.
      sound-weaken (λ h. h) (λ _ h _. validate_type-IsGrounded given.types t h.1)
        (sound-error_if _ _ _ _)
