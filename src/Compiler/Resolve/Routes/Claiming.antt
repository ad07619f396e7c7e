-- ===== src/Compiler/Resolve/Routes/Claiming.antt =====
-- rust/crates/zf-compiler/src/resolve.rs: how the name of a tool is claimed for its source.
use zedflow.Base.{
  String, ◌<>◌, ◌≡◌, refl, ◌∙◌, subst, true, false, Option, none, some, [], ◌++◌, arith, eq_iff,
  inl, inr, Bool-cases, append-eq-nil, ◌⊎◌,
}
use zedflow.Base.Text.{is_blank}
use zedflow.Flows.Composition.{InvocationKind, tool, node, condition, context}
use zedflow.Compiler.Resolve.{Errors, name_errors}
use zedflow.Compiler.Resolve.Wiring.{has_pair, add_pair, Wiring, add, wire_tool}
use zedflow.Compiler.Resolve.Routes.{report-eq-nil, has_pair-add_pair}

-- What a tool route claims.
pub record Claims (kind : InvocationKind) (name : Option String) (from : String) (s t : Wiring)
    : Type 0 where
  pub start : s.errors ≡ []
  pub routes : t.routes ≡ s.routes
  pub data_bindings : t.data_bindings ≡ s.data_bindings
  pub bound : t.bound ≡ s.bound
  pub grown : (i n : String) → has_pair s.tools i n ≡ true → has_pair t.tools i n ≡ true
  pub claimed :
      (n : String)
      → kind ≡ tool
      → name ≡ some n
      → (has_pair s.tools from n ≡ false) × (has_pair t.tools from n ≡ true)

-- A kind that claims nothing reports nothing.
add-Claims :
    (kind : InvocationKind) (name : Option String) (from : String) (ds : Errors) (s : Wiring)
    → ¬ (kind ≡ tool) ⊎ ¬ (ds ≡ [])
    → (add ds s).errors ≡ []
    → Claims kind name from s (add ds s)
add-Claims kind name from ds s other h =
    let (start, none_added) = append-eq-nil s.errors ds h in
    record {
      start = start;
      routes = refl;
      data_bindings = refl;
      bound = refl;
      grown = λ i n k. k;
      claimed = λ n k _. elim other [ inl f ↦ absurd (f k) | inr f ↦ absurd (f none_added) ];
    }

pub wire_tool-Claims :
    (kind : InvocationKind) (name : Option String) (from path : String) (s : Wiring)
    → (wire_tool kind name from path s).errors ≡ []
    → Claims kind name from s (wire_tool kind name from path s)
unfolding wire_tool
wire_tool-Claims tool (some name) from path s = elim (Bool-cases (is_blank name)) [
  | inl e ↦ rw e (add-Claims tool (some name) from _ s (inr (λ h. cc)))
  | inr e ↦ rw e (λ h.
      let (added, unique) =
        append-eq-nil (s.errors ++ name_errors name (path <> ".toolName")) _ h in
      let (start, _) = append-eq-nil s.errors _ added in
      let free = report-eq-nil (has_pair s.tools from name) _ _ _ unique in
      record {
        start = start;
        routes = refl;
        data_bindings = refl;
        bound = refl;
        grown = λ i n k. has_pair-add_pair s.tools from name i n ∙ ground (arith, k);
        claimed = λ n _ same.
            let name_is_n : name ≡ n = cc in
            subst
              (λ z.
                (has_pair s.tools from z ≡ false)
                × (has_pair (add_pair s.tools from name) from z ≡ true))
              name_is_n
              (
                free,
                has_pair-add_pair s.tools from name from name
                    ∙ ground (arith, eq_iff from from, eq_iff name name),
              );
      })
]
wire_tool-Claims tool none from path s = add-Claims tool none from _ s (inr (λ h. cc))
wire_tool-Claims node name from path s = add-Claims node name from _ s (inl (λ h. cc))
wire_tool-Claims condition name from path s = add-Claims condition name from _ s (inl (λ h. cc))
wire_tool-Claims context name from path s = add-Claims context name from _ s (inl (λ h. cc))
