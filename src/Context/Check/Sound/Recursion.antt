-- ===== src/Context/Check/Sound/Recursion.antt =====
-- rust/crates/zf-context/src/context.rs: each arm of `Checker::predicate`, `Checker::function`, and
-- the three methods that call each other.
use zedflow.Context.Check.Sound.Conditions.{sound-test_node}
use zedflow.Base.{
  ℕ, zero, suc, String, ◌<>◌, ◌≡◌, refl, subst, inl, inr, true, Option, none, some, List, [], ◌∷◌,
  All, str_eq, eq_iff, if◌then◌else◌, Bool-cases, Option-cases, arith,
}
use zedflow.Base.Maps.{Map, values}
use zedflow.Core.Types.{DataType}
use zedflow.Context.Language.{
  ContextExpr, ContextPredicate, LibraryKind, projection, subprogram, ContextFunction, function_of,
}
use zedflow.Context.Evaluate.State.{Inputs}
use zedflow.Context.Evaluate.Runs.Required.{Requires, RequiresTest}
use zedflow.Context.Check.{Subject, FunctionKey, Check, answer, ◌>>◌, error, has_key, without_key}
use zedflow.Context.Check.Recursion.{
  check_parameters, in_body, check_body, known_function, function_node, check_expression,
  check_predicate, check_function,
}
use zedflow.Context.Check.Grounded.{Found, IsGrounded}
use zedflow.Context.Check.Sound.{IsKnown, sound-answer, sound-weaken, holding, ◌⟫◌}
use zedflow.Context.Check.Sound.Reports.{
  sound-error_if, sound-error_at, sound-data_type, sound-enter, sound-blocked,
}
use zedflow.Context.Check.Sound.Scopes.{sound-observe, sound-if, sound-refused, sound-modify}
use zedflow.Context.Check.Sound.Terms.{Keeps, Calls, Required, of_found}
use zedflow.Context.Check.Sound.Arms.{sound-type_node}

module _ (inputs : Inputs) (given : Subject) (calls : Calls inputs given) where
  sound-check_parameters :
      (parameters : Map DataType) {H : Type 0} (path : String)
      → Keeps inputs given H
          (λ _. All (IsGrounded given.types) (values parameters))
          (check_parameters given calls.eval calls.test calls.function parameters path)
  unfolding check_parameters
  sound-check_parameters [] path = sound-answer tt (λ h. tt)
  sound-check_parameters ((name, t) ∷ rest) path =
      sound-error_if _ _ _ _ ⟫ (λ _. sound-data_type t path) ⟫ λ _.
      sound-weaken (λ h. h) (λ _ h later. (h.1, later)) (sound-check_parameters rest path)

  sound-in_body :
      {H A : Type 0} {P : A → Type 0} {m : Check A} (parameters : Map DataType)
      → (H → All (IsGrounded given.types) (values parameters))
      → Keeps inputs given H P m
      → Keeps inputs given H P (in_body given calls.eval calls.test calls.function parameters m)
  unfolding in_body
  sound-in_body parameters known s = record {
    bound = λ c h. s.bound _ h;
    kept = λ c h. s.kept _ h;
    grown = λ c x h i. s.grown _ x h i;
    sound = λ c h k g.
        let (p, k') =
          s.sound _ h
            (record { ready = k.ready; linked = k.linked; variables = known g; done = k.done }) g in
        (p, record { ready = k.ready; linked = k.linked; variables = k.variables; done = k'.done });
  }

  IsKnown-done :
      (keys : List FunctionKey) (kind : LibraryKind) (name : String) (f : ContextFunction)
      → function_of given.library kind name ≡ some f
      → IsKnown (Required given) inputs given f
      → ((kind' : LibraryKind) (name' : String) (g : ContextFunction)
          → has_key given keys (kind', name') ≡ true
          → function_of given.library kind' name' ≡ some g
          → IsKnown (Required given) inputs given g)
      → (kind' : LibraryKind) (name' : String) (g : ContextFunction)
      → has_key given ((kind, name) ∷ keys) (kind', name') ≡ true
      → function_of given.library kind' name' ≡ some g
      → IsKnown (Required given) inputs given g
  IsKnown-done keys projection name f found known done projection name' g =
      elim (Bool-cases (str_eq name name')) [
        | inl e ↦ λ _ found'.
            let same : name ≡ name' = (eq_iff name name').0 e in
            let one : f ≡ g = cc in subst (IsKnown (Required given) inputs given) one known
        | inr e ↦ rw e (done projection name' g)
      ]
  IsKnown-done keys subprogram name f found known done subprogram name' g =
      elim (Bool-cases (str_eq name name')) [
        | inl e ↦ λ _ found'.
            let same : name ≡ name' = (eq_iff name name').0 e in
            let one : f ≡ g = cc in subst (IsKnown (Required given) inputs given) one known
        | inr e ↦ rw e (done subprogram name' g)
      ]
  IsKnown-done keys projection name f found known done subprogram name' g = done subprogram name' g
  IsKnown-done keys subprogram name f found known done projection name' g = done projection name' g

  sound-check_body :
      {H : Type 0} (kind : LibraryKind) (name : String) (f : ContextFunction) (path : String)
      → function_of given.library kind name ≡ some f
      → Keeps inputs given H
          (Found (λ t. IsGrounded given.types t × IsKnown (Required given) inputs given f))
          (check_body given calls.eval calls.test calls.function (kind, name) f path)
  unfolding check_body
  sound-check_body kind name f path found =
      sound-modify {P = λ _. Unit} tt
        (λ c. record c { functions_active = (kind, name) ∷ c.functions_active }) (λ c. refl)
        (λ c. refl)
        (λ c k h. (
          tt,
          record { ready = k.ready; linked = k.linked; variables = k.variables; done = k.done },
        ))
      ⟫ (λ _. sound-error_if _ _ _ _)
      ⟫ (λ _. sound-check_parameters f.parameters path)
      ⟫ (λ _. holding (sound-data_type f.output path))
      ⟫ (λ _. holding (
          sound-in_body f.parameters (λ h. h.1.0.1)
            (calls.sound_eval _ f.body _ ⟫ λ actual.
              sound-weaken (λ h. h) (λ _ h _. of_found (IsGrounded given.types) actual h.1)
                (sound-error_at _ _ _ _ _))))
      ⟫ λ _.
          sound-modify (some f.output)
            (λ c. record c {
              functions_active = without_key given c.functions_active (kind, name);
              functions_done = (kind, name) ∷ c.functions_done;
            })
            (λ c. refl) (λ c. refl)
            (λ c k h.
              let known : IsKnown (Required given) inputs given f = (h.1.0.1.1, h.1.1) in
              (
                (known.0, known),
                record {
                  ready = k.ready;
                  linked = k.linked;
                  variables = k.variables;
                  done = IsKnown-done c.functions_done kind name f found known k.done;
                },
              ))

  -- A function that the checker finds has the output that it declares, and was checked.
  abbrev pub CheckedFunction : LibraryKind → String → DataType → Type 0
  CheckedFunction kind name t =
      IsGrounded given.types t
      × ((f : ContextFunction)
          → function_of given.library kind name ≡ some f
          → IsKnown (Required given) inputs given f)

  sound-known_function :
      {H : Type 0} (kind : LibraryKind) (name : String) (f : ContextFunction) (path : String)
      → function_of given.library kind name ≡ some f
      → Keeps inputs given H
          (Found (λ t. IsGrounded given.types t × IsKnown (Required given) inputs given f))
          (known_function given calls.eval calls.test calls.function (kind, name) f path)
  unfolding known_function
  sound-known_function kind name f path found =
      sound-observe
        (λ c c'.
          if has_key given c.functions_active (kind, name)
          then (error "function_cycle" path ("Recursive context function: " <> name) >> answer none)
              c'
          else if has_key given c.functions_done (kind, name)
          then (some f.output, c')
          else check_body given calls.eval calls.test calls.function (kind, name) f path c')
        λ c. sound-if (has_key given c.functions_active (kind, name)) (sound-refused _ _ _ none) (
          sound-if (has_key given c.functions_done (kind, name))
            (sound-answer (some f.output)
              (λ h. let known = h.0.0.1.done kind name f h.1 found in (known.0, known)))
            (sound-check_body kind name f path found))

  found_known :
      (kind : LibraryKind) (name : String) (f : ContextFunction) (o : Option DataType)
      → function_of given.library kind name ≡ some f
      → Found (λ t. IsGrounded given.types t × IsKnown (Required given) inputs given f) o
      → Found (CheckedFunction kind name) o
  found_known kind name f none found h = h
  found_known kind name f (some t) found (h, known) = (
    h,
    λ g found'. let same : f ≡ g = cc in subst (IsKnown (Required given) inputs given) same known,
  )

  sound-function_node :
      {H : Type 0} (kind : LibraryKind) (name path : String)
      → Keeps inputs given H
          (Found (CheckedFunction kind name))
          (function_node given calls.eval calls.test calls.function kind name path)
  unfolding function_node
  sound-function_node kind name path = elim (Option-cases (function_of given.library kind name)) [
    | inl e ↦
        rw (e, function_node)
          (sound-observe (λ _. _)
            λ c. sound-error_if _ _ _ _ ⟫ λ _.
              sound-answer none (λ h. absurd (ground (arith, h.0.1.linked, h.1))))
    | inr (f, e) ↦
        rw (e, function_node)
          (sound-weaken (λ h. h) (λ o _ p. found_known kind name f o e p)
            (sound-known_function kind name f path e))
  ]

module _ (inputs : Inputs) (given : Subject) (same : given.requirements ≡ inputs.requirements) where
  -- What the three methods keep with some levels left.
  pub record Level (n : ℕ) : Type 1 where
    pub expression :
        (H : Type 0) (e : ContextExpr) (path : String)
        → Keeps inputs given H
            (Found (λ t. IsGrounded given.types t × Requires inputs e))
            (check_expression given n e path)
    pub predicate :
        (H : Type 0) (p : ContextPredicate) (path : String)
        → Keeps inputs given H (λ _. RequiresTest inputs p) (check_predicate given n p path)
    pub function :
        (H : Type 0) (kind : LibraryKind) (name path : String)
        → Keeps inputs given H
            (Found (λ t.
              IsGrounded given.types t
              × ((f : ContextFunction)
                  → function_of given.library kind name ≡ some f
                  → IsKnown (Required given) inputs given f)))
            (check_function given n kind name path)

  pub found_output :
      (R : DataType → Type 0) (o : Option DataType)
      → Found (λ t. IsGrounded given.types t × R t) o
      → Found (IsGrounded given.types) o
  found_output R none h = h
  found_output R (some t) h = h.0

  abbrev pub calls_at : (n : ℕ) → Level n → Calls inputs given
  calls_at n level = record {
    eval = check_expression given n;
    test = check_predicate given n;
    function = check_function given n;
    sound_eval = level.expression;
    sound_test = level.predicate;
    sound_function = λ H kind name path.
        sound-weaken (λ h. h) (λ o _ p. found_output _ o p) (level.function H kind name path);
  }

  pub level : (n : ℕ) → Level n
  unfolding check_expression
  level zero = record {
    expression =
        λ H e path. sound-blocked {P = λ _. ⊥} path ⟫ λ _. sound-answer none (λ h. absurd h.1);
    predicate =
        λ H p path. sound-blocked {P = λ _. ⊥} path ⟫ λ _. sound-answer tt (λ h. absurd h.1);
    function = λ H kind name path.
        sound-blocked {P = λ _. ⊥} path ⟫ λ _. sound-answer none (λ h. absurd h.1);
  }
  level (suc n) =
      let calls = calls_at n (level n) in
      record {
        expression = λ H e path.
            sound-enter (suc n) path none (sound-type_node inputs given same calls e path);
        predicate =
            λ H p path. sound-enter (suc n) path tt (sound-test_node inputs given calls p path);
        function = λ H kind name path.
            sound-enter (suc n) path none (sound-function_node inputs given calls kind name path);
      }
