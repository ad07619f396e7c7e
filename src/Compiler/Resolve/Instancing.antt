-- ===== src/Compiler/Resolve/Instancing.antt =====
-- `InstanceResolver` ends within its fuel, never indexes a missing instance, and gives every import
-- an instance of its own flow.
pub mod Making
pub mod Ends
use zedflow.Base.{
  All, ℕ, zero, suc, ◌+◌, ◌≤◌, ◌<◌, String, ◌<>◌, ◌≡◌, ◌≢◌, refl, sym, ap, ◌∙◌, subst, Bool, true,
  false, Option, none, some, List, [], ◌∷◌, ◌++◌, arith, ltb, str_eq, eq_iff, if◌then◌else◌,
  is_some, contains, length, inl, inr, Bool-cases, Option-cases, append-eq-nil, snoc-ne-nil,
}
use zedflow.Base.Panic.{◌>>=◌}
use zedflow.Base.Maps
use zedflow.Base.Maps.{
  All-insert, values, Map, get-insert, get-insert-cases, get-insert-same, get-insert-other,
}
use zedflow.Base.Sets
use zedflow.Base.Sets.{Set, contains-insert, length-insert, remove-insert}
use zedflow.Core.Diagnostic.{Diagnostic, diagnostic}
use zedflow.Flows.Composition.{FlowDefinition, FlowImport, CompositionCatalog}
use zedflow.Compiler.Resolve.{FlowInstance, Errors}
use zedflow.Compiler.Resolve.Bridges.{max_depth, can_reuse}
use zedflow.Compiler.Resolve.Search.{can_reuse-MayReuse}
use zedflow.Compiler.Resolve.Instances.{
  Resolver, Answer, refuse, owner_of, check_flow, resolve_reuse, resolve_flow, resolve_import,
  leave, settle, resolve_new, resolve_known, resolve_alias,
}

-- How a part of the resolution changes its state.
pub record Extends (s t : Resolver) : Type 0 where
  pub visiting : t.visiting ≡ s.visiting
  pub kept :
      (x : String) → contains s.visiting x ≡ true → Maps.get t.aliases x ≡ Maps.get s.aliases x
  pub aliases : (a i : String) → Maps.get s.aliases a ≡ some i → Maps.get t.aliases a ≡ some i
  pub errors : t.errors ≡ [] → s.errors ≡ []

pub Extends-refl : (s : Resolver) → Extends s s
Extends-refl s = record {
  visiting = refl;
  kept = λ x h. refl;
  aliases = λ a i h. h;
  errors = λ h. h;
}

pub Extends-trans : (s t u : Resolver) → Extends s t → Extends t u → Extends s u
Extends-trans s t u e f = record {
  visiting = f.visiting ∙ e.visiting;
  kept = λ x h. f.kept x (subst (λ v. contains v x ≡ true) (sym e.visiting) h) ∙ e.kept x h;
  aliases = λ a i h. f.aliases a i (e.aliases a i h);
  errors = λ h. e.errors (f.errors h);
}

pub refuse-Extends :
    (d : Diagnostic) (s : Resolver) → Extends s (record s { errors = s.errors ++ d ∷ [] })
refuse-Extends d s = record {
  visiting = refl;
  kept = λ x h. refl;
  aliases = λ a i h. h;
  errors = λ h. absurd (snoc-ne-nil s.errors d h);
}

apart : (v : Set) (x y : String) → contains v x ≡ false → contains v y ≡ true → str_eq x y ≡ false
apart v x y out within = elim (Bool-cases (str_eq x y)) [
  | inl e ↦ absurd (cc (subst (λ z. contains v z ≡ false) ((eq_iff x y).0 e) out))
  | inr e ↦ e
]

unlike :
    (m : Map String) (x y i : String)
    → Maps.get m x ≡ none
    → Maps.get m y ≡ some i
    → str_eq x y ≡ false
unlike m x y i absent found = elim (Bool-cases (str_eq x y)) [
  | inl e ↦ absurd (cc (subst (λ z. Maps.get m z ≡ none) ((eq_iff x y).0 e) absent))
  | inr e ↦ e
]

module _ (catalog : CompositionCatalog) (imports : Map FlowImport) where
  abbrev pub Cataloged : FlowInstance → Type 0
  Cataloged f = Maps.get catalog.flows f.flow ≡ some f.definition

  -- The two maps of the resolver fit each other, the imports and the catalog.
  pub record IsConsistent (r : Resolver) : Type 0 where
    pub lives :
        (a i : String)
        → Maps.get r.aliases a ≡ some i
        → (f : FlowInstance) × (Maps.get r.instances i ≡ some f)
    pub own :
        (i : String) (f : FlowInstance)
        → Maps.get r.instances i ≡ some f
        → Maps.get r.aliases i ≡ some i
    pub cataloged : All Cataloged (values r.instances)
    pub agrees :
        (a i : String) (m : FlowImport) (f : FlowInstance)
        → a ≢ "root"
        → Maps.get imports a ≡ some m
        → Maps.get r.aliases a ≡ some i
        → Maps.get r.instances i ≡ some f
        → f.flow ≡ m.flow

  -- Of the state, consistency is about the maps alone.
  pub carry-IsConsistent :
      (r : Resolver) (visiting : Set) (errors : Errors)
      → IsConsistent r
      → IsConsistent (record r { visiting = visiting; errors = errors })
  carry-IsConsistent r visiting errors v = record {
    lives = v.lives;
    own = v.own;
    cataloged = v.cataloged;
    agrees = v.agrees;
  }

  -- A resolution ends, in a consistent state, with the instance that it recorded or an error.
  abbrev pub Resolves : String → Resolver → Answer → Type 0
  Resolves alias s answer =
      (o : Option String) × (t : Resolver) × (answer ≡ some (o, t))
      × Extends s t
      × IsConsistent t
      × ((i : String) → o ≡ some i → Maps.get t.aliases alias ≡ some i)
      × (t.errors ≡ [] → is_some o ≡ true)

  pub refuse-Resolves :
      (code path message alias : String) (s : Resolver)
      → IsConsistent s
      → Resolves alias s (refuse code path message s)
  refuse-Resolves code path message alias s v = (
    none,
    record s { errors = s.errors ++ diagnostic code path message ∷ [] },
    refl,
    refuse-Extends (diagnostic code path message) s,
    carry-IsConsistent s s.visiting (s.errors ++ diagnostic code path message ∷ []) v,
    λ i h. cc,
    λ h. absurd (snoc-ne-nil s.errors _ h),
  )

  module _ (alias : String) (s : Resolver) (fresh : contains s.visiting alias ≡ false)
      (unresolved : Maps.get s.aliases alias ≡ none) where
    abbrev pub entered : Resolver
    entered = record s { visiting = Sets.insert s.visiting alias }

    -- A name under resolution stays unresolved meanwhile.
    pub still_unresolved : (t : Resolver) → Extends entered t → Maps.get t.aliases alias ≡ none
    still_unresolved t e =
        e.kept alias (ground (arith, contains-insert s.visiting alias alias, eq_iff alias alias))
        ∙ unresolved

    pub leave-Extends : (t : Resolver) → Extends entered t → Extends s (leave alias t)
    leave-Extends t e = record {
      visiting = ap (λ v. Sets.remove v alias) e.visiting ∙ remove-insert s.visiting alias fresh;
      kept = λ x h. e.kept x (ground (arith, contains-insert s.visiting alias x));
      aliases = e.aliases;
      errors = e.errors;
    }

    -- The answer without an instance.
    pub leave-Resolves :
        (t : Resolver)
        → Extends entered t
        → IsConsistent t
        → ¬ (t.errors ≡ [])
        → Resolves alias s (some (settle alias (none, t)))
    unfolding settle
    leave-Resolves t e v failed = (
      none,
      leave alias t,
      refl,
      leave-Extends t e,
      record { lives = v.lives; own = v.own; cataloged = v.cataloged; agrees = v.agrees },
      λ i h. cc,
      λ h. absurd (failed h),
    )

    settle-Extends :
        (t : Resolver) (i : String) (is : Map FlowInstance)
        → Extends entered t
        → Extends s
            (record (leave alias t) { aliases = Maps.insert t.aliases alias i; instances = is })
    settle-Extends t i is e =
        let left = leave-Extends t e in
        record {
          visiting = left.visiting;
          kept = λ x h.
              get-insert t.aliases alias x i
              ∙ rw (apart s.visiting alias x fresh h) (left.kept x h);
          aliases = λ a j h.
              get-insert t.aliases alias a i
              ∙ rw (unlike s.aliases alias a j unresolved h) (left.aliases a j h);
          errors = e.errors;
        }

    -- A new binding of the alias, to an instance that exists under its own name.
    pub settle-Resolves :
        (t : Resolver) (i : String) (is : Map FlowInstance)
        → Extends entered t
        → IsConsistent (record t { aliases = Maps.insert t.aliases alias i; instances = is })
        → Resolves alias s (some (settle alias (some i, record t { instances = is })))
    unfolding settle
    settle-Resolves t i is e v = (
      some i,
      record (leave alias t) { aliases = Maps.insert t.aliases alias i; instances = is },
      refl,
      settle-Extends t i is e,
      record { lives = v.lives; own = v.own; cataloged = v.cataloged; agrees = v.agrees },
      λ j h. get-insert t.aliases alias alias i ∙ ground (arith, eq_iff alias alias),
      λ h. refl,
    )
