-- ===== src/Context/Check/Sound/Scopes.antt =====
-- rust/crates/zf-context/src/context.rs: the rules for the variables in scope, for the reading of the
-- state, and for what is known beforehand.
use zedflow.Base.{contains, String, ◌≡◌, refl, Bool, true, false, Option, none, some, if◌then◌else◌}
use zedflow.Base.Maps
use zedflow.Base.Maps.{Map, values, All-get, All-insert, All-erase}
use zedflow.Base.Sets.{Set}
use zedflow.Core.Types.{DataType}
use zedflow.Context.Evaluate.State.{Inputs}
use zedflow.Context.Check.{Subject, Checker, Check, answer, ◌>>◌, error}
use zedflow.Context.Check.Terms.Names.{restore_type, with_variable}
use zedflow.Context.Check.Grounded.{IsGrounded}
use zedflow.Context.Check.Sound.{Knows, Sound, ◌⟫◌, sound-answer, sound-weaken}
use zedflow.Context.Check.Sound.Reports.{sound-error}

pub restore_diagnostics :
    (name : String) (o : Option DataType) (c : Checker)
    → (restore_type name o c).diagnostics ≡ c.diagnostics
unfolding restore_type
restore_diagnostics name none c = refl
restore_diagnostics name (some t) c = refl

pub restore_ids :
    (name : String) (o : Option DataType) (c : Checker) → (restore_type name o c).ids ≡ c.ids
unfolding restore_type
restore_ids name none c = refl
restore_ids name (some t) c = refl

restore-Knows :
    {Ready : Type 0} {inputs : Inputs} {given : Subject} (name : String) (o : Option DataType)
    (c : Checker)
    → ((t : DataType) → o ≡ some t → IsGrounded given.types t)
    → Knows Ready inputs given c
    → Knows Ready inputs given (restore_type name o c)
unfolding restore_type
restore-Knows {given} name none c each k = record {
  ready = k.ready;
  linked = k.linked;
  variables = All-erase (IsGrounded given.types) c.variables name k.variables;
  done = k.done;
}
restore-Knows {given} name (some t) c each k = record {
  ready = k.ready;
  linked = k.linked;
  variables = All-insert (IsGrounded given.types) c.variables name t k.variables (each t refl);
  done = k.done;
}

module _ {Ready : Type 0} {inputs : Inputs} {given : Subject} {H : Type 0} where
  pub sound-with_variable :
      {A : Type 0} {P : A → Type 0} {m : Check A} (name : String) (t : DataType)
      → (H → IsGrounded given.types t)
      → Sound Ready inputs given H P m
      → Sound Ready inputs given H P (with_variable name t m)
  unfolding with_variable
  sound-with_variable {m} name t grounded s =
      let entered : Checker → Checker =
        λ c. record c { variables = Maps.insert c.variables name t } in
      let back : Checker → Option DataType = λ c. Maps.get c.variables name in
      let same = λ (c : Checker). restore_diagnostics name (back c) (m (entered c)).1 in
      record {
        bound = λ c h. rw (same c) (s.bound (entered c) h);
        kept = λ c h. s.kept (entered c) (rw (same c) at h);
        grown = λ c x h i.
            rw (restore_ids name (back c) (m (entered c)).1)
              (s.grown (entered c) x (rw (same c) at h) i);
        sound = λ c h k g.
            let (p, k') =
              s.sound (entered c) (rw (same c) at h)
                (record {
                  ready = k.ready;
                  linked = k.linked;
                  variables =
                      All-insert (IsGrounded given.types) c.variables name t k.variables
                        (grounded g);
                  done = k.done;
                })
                g in
            (
              p,
              restore-Knows name (back c) _
                  (λ u found. All-get (IsGrounded given.types) c.variables name u k.variables found)
                  k',
            );
      }

-- What a hypothesis gives can be known beforehand.
pub sound-lift :
    {Ready : Type 0} {inputs : Inputs} {given : Subject} {H A : Type 0} {P : A → Type 0}
    {m : Check A}
    → (H → Ready)
    → Sound Ready inputs given H P m
    → Sound Unit inputs given H P m
sound-lift {Ready} {inputs} {given} known s = record {
  bound = s.bound;
  kept = s.kept;
  grown = s.grown;
  sound = λ c h k g.
      let before : Knows Ready inputs given c = record {
        ready = known g;
        linked = k.linked;
        variables = k.variables;
        done = k.done;
      } in
      let (p, k') = s.sound c h before g in
      (p, record { ready = tt; linked = k'.linked; variables = k'.variables; done = k'.done });
}

module _ {Ready : Type 0} {inputs : Inputs} {given : Subject} {H A : Type 0} where
  -- A method that reads the state.
  pub sound-observe :
      {P : A → Type 0} (f : Checker → Check A)
      → ((c : Checker) → Sound Ready inputs given (H × Knows Ready inputs given c) P (f c))
      → Sound Ready inputs given H P (λ c. f c c)
  sound-observe f s = record {
    bound = λ c h. (s c).bound c h;
    kept = λ c h. (s c).kept c h;
    grown = λ c x h i. (s c).grown c x h i;
    sound = λ c h k g. (s c).sound c h k (g, k);
  }

  pub sound-if :
      {P : A → Type 0} {m n : Check A} (b : Bool)
      → Sound Ready inputs given (H × (b ≡ true)) P m
      → Sound Ready inputs given (H × (b ≡ false)) P n
      → Sound Ready inputs given H P (λ c. if b then m c else n c)
  sound-if true s t = sound-weaken (λ h. (h, refl)) (λ _ _ p. p) s
  sound-if false s t = sound-weaken (λ h. (h, refl)) (λ _ _ p. p) t

  pub sound-refused :
      {P : A → Type 0} (code path message : String) (a : A)
      → Sound Ready inputs given H P (error code path message >> answer a)
  sound-refused code path message a =
      sound-error {P = λ _. ⊥} _ _ _ ⟫ λ _. sound-answer a (λ h. absurd h.1)

  pub sound-modify :
      {P : A → Type 0} (a : A) (g : Checker → Checker)
      → ((c : Checker) → (g c).diagnostics ≡ c.diagnostics)
      → ((c : Checker) → (g c).ids ≡ c.ids)
      → ((c : Checker) → Knows Ready inputs given c → H → P a × Knows Ready inputs given (g c))
      → Sound Ready inputs given H P (λ c. (a, g c))
  sound-modify a g same ids keeps = record {
    bound = λ c h. rw (same c) h;
    kept = λ c h. rw (same c) at h;
    grown = λ c x h i. rw (ids c) i;
    sound = λ c h k hyp. keeps c k hyp;
  }

  -- A method that runs once the identifiers have changed.
  pub sound-ids :
      {P : A → Type 0} {f : Checker → Check A} (ids : Checker → Set)
      → ((c : Checker) (x : String) → contains c.ids x ≡ true → contains (ids c) x ≡ true)
      → ((c : Checker) → Sound Ready inputs given H P (f c))
      → Sound Ready inputs given H P (λ c. f c (record c { ids = ids c }))
  sound-ids ids more s = record {
    bound = λ c h. (s c).bound (record c { ids = ids c }) h;
    kept = λ c h. (s c).kept (record c { ids = ids c }) h;
    grown = λ c x h i. (s c).grown (record c { ids = ids c }) x h (more c x i);
    sound = λ c h k g.
        (s c).sound (record c { ids = ids c }) h
          (record { ready = k.ready; linked = k.linked; variables = k.variables; done = k.done }) g;
  }
