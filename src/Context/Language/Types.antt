-- ===== src/Context/Language/Types.antt =====
-- rust/crates/zf-context/src/context.rs: `resolved_types` combines the types of a strategy and of its
-- scope without changing the meaning of a name.
use zedflow.Base.{
  String, ◌≡◌, sym, subst, ap, ◌∙◌, ◌⊎◌, inl, inr, false, not, Option, none, some, List, [], ◌∷◌,
  arith, str_eq, eq_iff, Bool-cases, is_some_and, snoc-ne-nil,
}
use zedflow.Base.Outcome.{ok}
use zedflow.Base.Maps
use zedflow.Base.Maps.{Map, get-insert-cases, get-insert-same, get-insert-other}
use zedflow.Core.Diagnostic.{Diagnostic}
use zedflow.Core.Types.{DataType, TypeRegistry, type_eq}
use zedflow.Core.Types.Order.{type_eq_sound}
use zedflow.Context.Language.{
  ContextStrategy, merge_type, merge_types, merged_or_errors, resolved_types,
}

-- What the first registry finds, the second finds too.
abbrev pub Extends : TypeRegistry → TypeRegistry → Type 0
Extends m n = (k : String) (t : DataType) → Maps.get m k ≡ some t → Maps.get n k ≡ some t

-- The three facts about a combined registry.
pub record Combines (external declared types : TypeRegistry) : Type 0 where
  pub scope : Extends external types
  pub own : Extends declared types
  pub only :
      (k : String) (t : DataType)
      → Maps.get types k ≡ some t
      → (Maps.get external k ≡ some t) ⊎ (Maps.get declared k ≡ some t)

agrees :
    (o : Option DataType) (t u : DataType)
    → is_some_and o (λ existing. not (type_eq existing t)) ≡ false
    → o ≡ some u
    → u ≡ t
agrees none t u h e = cc
agrees (some v) t u h e = let same : v ≡ u = cc in sym same ∙ type_eq_sound v t (ground (arith, h))

step-Extends :
    (types : TypeRegistry) (name : String) (t : DataType)
    → is_some_and (Maps.get types name) (λ existing. not (type_eq existing t)) ≡ false
    → Extends types (Maps.insert types name t)
step-Extends types name t h k u found = elim (Bool-cases (str_eq name k)) [
  | inl e ↦
      let named : name ≡ k = (eq_iff name k).0 e in
      let here = agrees (Maps.get types name) t u h (ap (Maps.get types) named ∙ found) in
      subst (λ z. Maps.get (Maps.insert types name t) z ≡ some u) named
        (get-insert-same types name t ∙ ap some (sym here))
  | inr e ↦ get-insert-other types name k t e ∙ found
]

-- The diagnostics of a merge only grow.
merge_types-nil :
    (declared : Map DataType) (types : TypeRegistry) (ds : List Diagnostic)
    → (merge_types declared (types, ds)).1 ≡ []
    → ds ≡ []
unfolding merge_types merge_type
merge_types-nil [] types ds = λ h. h
merge_types-nil ((name, t) ∷ rest) types ds =
    elim (Bool-cases (is_some_and (Maps.get types name) (λ existing. not (type_eq existing t)))) [
      | inl e ↦
          rw (e, merge_types) (λ h. elim (snoc-ne-nil ds _ (merge_types-nil rest types _ h)) [ ])
      | inr e ↦ rw (e, merge_types) (merge_types-nil rest (Maps.insert types name t) ds)
    ]

combined_step :
    (types : TypeRegistry) (name : String) (t : DataType) (rest : Map DataType)
    (merged : TypeRegistry)
    → is_some_and (Maps.get types name) (λ existing. not (type_eq existing t)) ≡ false
    → Combines (Maps.insert types name t) rest merged
    → Combines types ((name, t) ∷ rest) merged
unfolding Maps.get
combined_step types name t rest merged h later = record {
  scope = λ k u found. later.scope k u (step-Extends types name t h k u found);
  own = λ k u. elim (Bool-cases (str_eq name k)) [
    | inl e ↦ rw e (λ found.
        let named : name ≡ k = (eq_iff name k).0 e in
        let same : t ≡ u = cc in
        subst (λ z. Maps.get merged z ≡ some u) named
          (later.scope name u (get-insert-same types name t ∙ ap some same)))
    | inr e ↦ rw e (later.own k u)
  ];
  only = λ k u found. elim (Bool-cases (str_eq name k)) [
    | inl e ↦ rw e (
        let named : name ≡ k = (eq_iff name k).0 e in
        let kept = later.scope name t (get-insert-same types name t) in
        let there = ap (Maps.get merged) named in let same : t ≡ u = cc in inr (ap some same))
    | inr e ↦ rw e (elim (later.only k u found) [
      | inl older ↦ inl (sym (get-insert-other types name k t e) ∙ older)
      | inr below ↦ inr below
    ])
  ];
}

combined :
    (declared : Map DataType) (types : TypeRegistry) (ds : List Diagnostic) (merged : TypeRegistry)
    → merge_types declared (types, ds) ≡ (merged, [])
    → Combines types declared merged
unfolding merge_types merge_type Maps.get
combined [] types ds merged = λ h.
    let same : types ≡ merged = ap (λ (z : TypeRegistry × List Diagnostic). z.0) h in
    record {
      scope = λ k t found. ap (λ m. Maps.get m k) (sym same) ∙ found;
      own = λ k t found. cc;
      only = λ k t found. inl (ap (λ m. Maps.get m k) same ∙ found);
    }
combined ((name, t) ∷ rest) types ds merged =
    elim (Bool-cases (is_some_and (Maps.get types name) (λ existing. not (type_eq existing t)))) [
      | inl e ↦ rw e (λ h.
          elim (snoc-ne-nil ds _ (
            merge_types-nil rest types _ (ap (λ (z : TypeRegistry × List Diagnostic). z.1) h))) [ ])
      | inr e ↦ rw e (λ h.
          combined_step types name t rest merged e
            (combined rest (Maps.insert types name t) ds merged h))
    ]

accepted :
    (r : TypeRegistry × List Diagnostic) (types : TypeRegistry)
    → merged_or_errors r ≡ ok types
    → r ≡ (types, [])
accepted (m, []) types h = let same : m ≡ types = cc in ap (λ z. (z, [])) same
accepted (m, d ∷ ds) types h = cc

-- When the types of a strategy and of its scope are combined, every name of either keeps the type that
-- it has there, and no other name has one.
pub resolved_types-Combines :
    (strategy : ContextStrategy) (external types : TypeRegistry)
    → resolved_types strategy external ≡ ok types
    → Combines external strategy.types types
unfolding resolved_types
resolved_types-Combines strategy external types h =
    combined strategy.types external [] types
      (accepted (merge_types strategy.types (external, [])) types h)
