-- ===== src/Compiler/Resolve/Instancing/Making.antt =====
-- rust/crates/zf-compiler/src/resolve.rs: an instance that is linked or made keeps the resolver
-- consistent.
use zedflow.Base.{String, ◌≡◌, sym, ap, ◌∙◌, subst, false, none, some, str_eq, inl, inr}
use zedflow.Base.Maps
use zedflow.Base.Maps.{
  All-insert, values, Map, get-insert, get-insert-cases, get-insert-same, get-insert-other,
}
use zedflow.Flows.Composition.{FlowDefinition, FlowImport, CompositionCatalog}
use zedflow.Compiler.Resolve.{FlowInstance}
use zedflow.Compiler.Resolve.Instances.{Resolver}
use zedflow.Compiler.Resolve.Instancing.{unlike, Cataloged, IsConsistent}

module _ (catalog : CompositionCatalog) (imports : Map FlowImport) where
  module _ (alias : String) (t : Resolver) (v : IsConsistent catalog imports t)
      (unresolved : Maps.get t.aliases alias ≡ none) where
    unmade :
        (i : String) (f : FlowInstance) → Maps.get t.instances i ≡ some f → str_eq alias i ≡ false
    unmade i f h = unlike t.aliases alias i i unresolved (v.own i f h)

    -- The alias of an instance that another import made.
    pub link-IsConsistent :
        (i : String) (f : FlowInstance)
        → Maps.get t.instances i ≡ some f
        → ((m : FlowImport) → Maps.get imports alias ≡ some m → f.flow ≡ m.flow)
        → IsConsistent catalog imports
            (record t { aliases = Maps.insert t.aliases alias i; instances = t.instances })
    link-IsConsistent i f made fits = record {
      lives = λ a j h. elim (get-insert-cases t.aliases alias a i j h) [
        | inl (_, same) ↦ (f, subst (λ z. Maps.get t.instances z ≡ some f) same made)
        | inr (_, old) ↦ v.lives a j old
      ];
      own = λ j g h. get-insert-other t.aliases alias j i (unmade j g h) ∙ v.own j g h;
      cataloged = v.cataloged;
      agrees = λ a j m g other known h at. elim (get-insert-cases t.aliases alias a i j h) [
        | inl (here, same) ↦
            let g_is_f : f ≡ g = cc in
            let m_at : Maps.get imports alias ≡ some m = cc in
            subst (λ z. z.flow ≡ m.flow) g_is_f (fits m m_at)
        | inr (_, old) ↦ v.agrees a j m g other known old at
      ];
    }

    -- A new instance under the alias.
    pub make-IsConsistent :
        (m : FlowImport) (d : FlowDefinition)
        → Maps.get imports alias ≡ some m
        → Maps.get catalog.flows m.flow ≡ some d
        → IsConsistent catalog imports (record t {
          aliases = Maps.insert t.aliases alias alias;
          instances = Maps.insert t.instances alias (record { flow = m.flow; definition = d });
        })
    make-IsConsistent m d imported declared =
        let new : FlowInstance = record { flow = m.flow; definition = d } in
        record {
          lives = λ a j h. elim (get-insert-cases t.aliases alias a alias j h) [
            | inl (_, same) ↦ (
              new,
              subst (λ z. Maps.get (Maps.insert t.instances alias new) z ≡ some new) same
                  (get-insert-same t.instances alias new),
            )
            | inr (_, old) ↦
                let (g, made) = v.lives a j old in
                (g, get-insert-other t.instances alias j new (unmade j g made) ∙ made)
          ];
          own = λ j g h. elim (get-insert-cases t.instances alias j new g h) [
            | inl (here, _) ↦
                subst (λ z. Maps.get (Maps.insert t.aliases alias alias) z ≡ some z) here
                  (get-insert-same t.aliases alias alias)
            | inr (other, old) ↦ get-insert-other t.aliases alias j alias other ∙ v.own j g old
          ];
          cataloged =
              All-insert (Cataloged catalog imports) t.instances alias new v.cataloged declared;
          agrees = λ a j k g other known h at. elim (get-insert-cases t.aliases alias a alias j h) [
            | inl (here, same) ↦
                let at_alias =
                  subst (λ z. Maps.get (Maps.insert t.instances alias new) z ≡ some g) (sym same)
                    at in
                let made = get-insert-same t.instances alias new in
                let is_new : new ≡ g = cc in
                let m_is_k : m ≡ k = cc in
                subst (λ z. z.flow ≡ k.flow) is_new (ap (λ z. z.flow) m_is_k)
            | inr (_, old) ↦
                let (f, made) = v.lives a j old in
                let kept = get-insert-other t.instances alias j new (unmade j f made) in
                v.agrees a j k g other known old (sym kept ∙ at)
          ];
        }
