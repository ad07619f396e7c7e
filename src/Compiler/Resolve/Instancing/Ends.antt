-- ===== src/Compiler/Resolve/Instancing/Ends.antt =====
-- The recursion of `InstanceResolver::resolve`, by induction on its fuel.
use zedflow.Base.{
  ℕ, zero, suc, ◌+◌, ◌≤◌, ◌<◌, String, ◌<>◌, ◌≡◌, refl, ap, ◌∙◌, true, false, Option, none, some,
  [], ◌∷◌, ◌++◌, arith, ltb, str_eq, eq_iff, is_some, contains, length, inl, inr, Bool-cases,
  Option-cases, snoc-ne-nil,
}
use zedflow.Base.Panic.{◌>>=◌}
use zedflow.Base.Maps
use zedflow.Base.Maps.{Map}
use zedflow.Base.Sets
use zedflow.Base.Sets.{length-insert}
use zedflow.Core.Diagnostic.{diagnostic}
use zedflow.Flows.Composition.{FlowDefinition, FlowImport, CompositionCatalog}
use zedflow.Compiler.Resolve.Bridges.{max_depth}
use zedflow.Compiler.Resolve.Search.{can_reuse-MayReuse}
use zedflow.Compiler.Resolve.Instances.{
  Resolver, Answer, refuse, owner_of, check_flow, resolve_reuse, resolve_flow, resolve_import,
  settle, resolve_new, resolve_known, resolve_alias,
}
use zedflow.Compiler.Resolve.Instancing.{
  Extends, Extends-refl, Extends-trans, IsConsistent, carry-IsConsistent, Resolves, refuse-Extends,
  refuse-Resolves, still_unresolved, leave-Resolves, settle-Resolves,
}
use zedflow.Compiler.Resolve.Instancing.Making.{link-IsConsistent, make-IsConsistent}

module _ (catalog : CompositionCatalog) (imports : Map FlowImport) where
  module _ (walk : String → Resolver → Answer) (alias : String) (s : Resolver)
      (consistent : IsConsistent catalog imports s) (fresh : contains s.visiting alias ≡ false)
      (unresolved : Maps.get s.aliases alias ≡ none)
      (each : (y : String) (t : Resolver)
        → t.visiting ≡ Sets.insert s.visiting alias
        → IsConsistent catalog imports t
        → Resolves catalog imports y t (walk y t)) where
    abbrev inside : Resolver
    inside = record s { visiting = Sets.insert s.visiting alias }

    abbrev Settles : Answer → Type 0
    Settles answer = Resolves catalog imports alias s (answer >>= λ a. some (settle alias a))

    inside-IsConsistent : IsConsistent catalog imports inside
    inside-IsConsistent =
        carry-IsConsistent catalog imports s (Sets.insert s.visiting alias) s.errors consistent

    refuse-Settles :
        (code path message : String) (t : Resolver)
        → Extends inside t
        → IsConsistent catalog imports t
        → Settles (refuse code path message t)
    refuse-Settles code path message t e v =
        let d = diagnostic code path message in
        leave-Resolves catalog imports alias s fresh unresolved _
          (Extends-trans inside t _ e (refuse-Extends d t))
          (carry-IsConsistent catalog imports t t.visiting (t.errors ++ d ∷ []) v)
          (snoc-ne-nil t.errors d)

    -- What `check_flow` does with an instance of the target.
    check_flow-Settles :
        (m : FlowImport) (o : Option String) (t : Resolver)
        → Maps.get imports alias ≡ some m
        → Extends inside t
        → IsConsistent catalog imports t
        → ((i : String) → o ≡ some i → (a : String) × (Maps.get t.aliases a ≡ some i))
        → (t.errors ≡ [] → is_some o ≡ true)
        → Settles (check_flow alias m (o, t))
    unfolding check_flow
    check_flow-Settles m none t imported e v named clean =
        leave-Resolves catalog imports alias s fresh unresolved t e v (λ h. cc (clean h))
    check_flow-Settles m (some i) t imported e v named clean =
        let (a, at) = named i refl in
        let (f, made) = v.lives a i at in
        rw made (elim (Bool-cases (str_eq f.flow m.flow)) [
          | inl same ↦ rw same (
              settle-Resolves catalog imports alias s fresh unresolved t i t.instances e (
                link-IsConsistent catalog imports alias t v
                  (still_unresolved catalog imports alias s fresh unresolved t e) i f made
                  (λ k h.
                    let m_is_k : m ≡ k = cc in
                    (eq_iff f.flow m.flow).0 same ∙ ap (λ z. z.flow) m_is_k)))
          | inr other ↦ rw other (
              refuse-Settles "reuse_flow_mismatch" alias
                "Reused instance has a different flow definition" t e v)
        ])

    resolve_reuse-Settles :
        (m : FlowImport) (d : FlowDefinition)
        → Maps.get imports alias ≡ some m
        → Maps.get catalog.flows m.flow ≡ some d
        → (o : Option String) → Settles (resolve_reuse catalog imports walk alias m d o inside)
    unfolding resolve_reuse
    resolve_reuse-Settles m d imported declared none =
        settle-Resolves catalog imports alias s fresh unresolved inside alias _
          (Extends-refl inside)
          (make-IsConsistent catalog imports alias inside inside-IsConsistent unresolved m d
            imported declared)
    resolve_reuse-Settles m d imported declared (some target) =
        let (allowed, scoped, _) = can_reuse-MayReuse (owner_of alias) target catalog.bridges in
        rw scoped (elim (Bool-cases allowed) [
          | inl permitted ↦
              let (o, t, walked, e, v, named, clean) =
                each target inside refl inside-IsConsistent in
              rw (permitted, walked)
                (check_flow-Settles m o t imported e v (λ i h. (target, named i h)) clean)
          | inr denied ↦ rw denied (
              refuse-Settles "reuse_scope" alias
                "Reuse must target this bridge, root, or a declared dependency" inside
                (Extends-refl inside) inside-IsConsistent)
        ])

    resolve_import-Settles :
        Settles (resolve_import catalog imports walk alias (Maps.get imports alias) inside)
    unfolding resolve_import resolve_flow
    resolve_import-Settles = elim (Option-cases (Maps.get imports alias)) [
      | inl absent ↦ rw absent (
          refuse-Settles "unknown_alias" alias "Instance alias is absent" inside
            (Extends-refl inside) inside-IsConsistent)
      | inr (m, imported) ↦ rw imported (elim (Option-cases (Maps.get catalog.flows m.flow)) [
        | inl undeclared ↦ rw undeclared (
            refuse-Settles "missing_flow" alias ("Flow " <> m.flow <> " is absent") inside
              (Extends-refl inside) inside-IsConsistent)
        | inr (d, declared) ↦ rw declared (resolve_reuse-Settles m d imported declared m.reuse)
      ])
    ]

  resolve_new-Resolves :
      (walk : String → Resolver → Answer) (alias : String) (s : Resolver)
      → IsConsistent catalog imports s
      → Maps.get s.aliases alias ≡ none
      → length s.visiting ≤ max_depth
      → ((y : String) (t : Resolver)
          → t.visiting ≡ Sets.insert s.visiting alias
          → suc (length s.visiting) ≤ max_depth
          → length t.visiting ≡ suc (length s.visiting)
          → IsConsistent catalog imports t
          → Resolves catalog imports y t (walk y t))
      → Resolves catalog imports alias s (resolve_new catalog imports walk alias s)
  unfolding resolve_new settle
  resolve_new-Resolves walk alias s v unresolved bounded each =
      elim (Bool-cases (contains s.visiting alias)) [
        | inl cyclic ↦
            rw cyclic (
              refuse-Resolves catalog imports "reuse_cycle" alias "Cyclic instance reuse" alias s v)
        | inr fresh ↦
            let entered = record s { visiting = Sets.insert s.visiting alias } in
            let longer = length-insert s.visiting alias fresh in
            rw fresh (elim (Bool-cases (ltb max_depth (length entered.visiting))) [
              | inl deep ↦
                  let d = diagnostic "composition_depth" alias "Instance reuse depth exceeds 128" in
                  rw deep (
                    leave-Resolves catalog imports alias s fresh unresolved
                      (record entered { errors = s.errors ++ d ∷ [] }) (refuse-Extends d entered)
                      (carry-IsConsistent catalog imports s entered.visiting (s.errors ++ d ∷ []) v)
                      (snoc-ne-nil s.errors d))
              | inr shallow ↦ rw shallow (
                  resolve_import-Settles walk alias s v fresh unresolved
                    (λ y t e w. each y t e (ground arith) (rw e longer) w))
            ])
      ]

  -- With fuel for what is left of the depth, the resolution of an alias ends without a panic. It
  -- leaves the set of visited names as it found it and keeps every alias that was known; a
  -- consistent state stays consistent; and what it answers is recorded under the alias, or an error
  -- is reported.
  pub resolve_alias-Resolves :
      (fuel : ℕ) (alias : String) (s : Resolver)
      → IsConsistent catalog imports s
      → length s.visiting ≤ max_depth
      → max_depth < length s.visiting + fuel
      → Resolves catalog imports alias s (resolve_alias catalog imports fuel alias s)
  unfolding resolve_alias resolve_known
  resolve_alias-Resolves zero alias s v bounded enough = absurd (omega arith)
  resolve_alias-Resolves (suc fuel) alias s v bounded enough =
      elim (Option-cases (Maps.get s.aliases alias)) [
        | inl unresolved ↦ rw unresolved (
            resolve_new-Resolves (resolve_alias catalog imports fuel) alias s v unresolved bounded
              (λ y t _ room longer w.
                resolve_alias-Resolves fuel y t w (omega (arith, longer, room))
                  (omega (arith, longer, enough))))
        | inr (i, known) ↦ rw known (some i, s, refl, Extends-refl s, v, λ j h. cc, λ h. refl)
      ]
