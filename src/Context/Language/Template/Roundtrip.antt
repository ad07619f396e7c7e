-- ===== src/Context/Language/Template/Roundtrip.antt =====
-- rust/crates/zf-context/src/context.rs: what `template_parts` takes apart is the template.
use Prim.Native.String.{count as chars}
use text.Mathlib.TextLemmas.{length-append, append-nil}
use zedflow.Base.{
  ℕ, zero, suc, ◌+◌, ◌<◌, String, ◌<>◌, ◌≡◌, refl, ap, sym, ◌∙◌, true, Option, none, some, List, [],
  ◌∷◌, arith, inl, inr, is_some, Bool-cases,
}
use zedflow.Base.Text.{split_at}
use zedflow.Base.Text.Splits.{split_at_lem}
use zedflow.Base.Outcome.{ok, err}
use zedflow.Context.Language.Template.{
  valid_id, TemplatePart, plain, variable, Parts, before, placeholder, turn, parts_upto,
  template_parts, written,
}

before-eq-ok :
    (p : TemplatePart) (r : Parts) (ps : List TemplatePart)
    → before p r ≡ some (ok ps)
    → (qs : List TemplatePart) × (r ≡ some (ok qs)) × (ps ≡ p ∷ qs)
before-eq-ok p none ps h = cc
before-eq-ok p (some (err e)) ps h = cc
before-eq-ok p (some (ok qs)) ps h = (qs, refl, cc)

module _ (rest : String → Parts)
    (rest_lem : (t : String) (ps : List TemplatePart)
      → rest t ≡ some (ok ps)
      → written ps ≡ t) where
  placeholder-written :
      (tail : String) (o : Option (String × String)) (ps : List TemplatePart)
      → split_at "}}" tail ≡ o
      → placeholder rest o ≡ some (ok ps)
      → written ps ≡ "{{" <> tail
  unfolding placeholder written
  placeholder-written tail none ps e = λ h. cc
  placeholder-written tail (some (name, after)) ps e = elim (Bool-cases (valid_id name)) [
    | inr bad ↦ rw bad (λ h. cc)
    | inl good ↦ rw good (λ h.
        let (qs, later, split) = before-eq-ok (variable name) (rest after) ps h in
        let again = rest_lem after qs later in
        let whole = split_at_lem "}}" tail name after e in
        ap written split
        ∙ ap (λ z. "{{" <> name <> "}}" <> z) again
        ∙ ap (λ z. "{{" <> z) (sym whole))
  ]

  turn-written :
      (t : String) (o : Option (String × String)) (ps : List TemplatePart)
      → split_at "{{" t ≡ o
      → turn rest t o ≡ some (ok ps)
      → written ps ≡ t
  unfolding turn written
  turn-written t none ps e h =
      let single : ps ≡ plain t ∷ [] = cc in ap written single ∙ append-nil t
  turn-written t (some (start, tail)) ps e h =
      let (qs, later, split) = before-eq-ok (plain start) _ ps h in
      let again = placeholder-written tail (split_at "}}" tail) qs refl later in
      let whole = split_at_lem "{{" t start tail e in cc

upto-written :
    (fuel : ℕ) (t : String) (ps : List TemplatePart)
    → parts_upto fuel t ≡ some (ok ps)
    → written ps ≡ t
unfolding parts_upto
upto-written zero t ps h = cc
upto-written (suc fuel) t ps h =
    turn-written (parts_upto fuel) (upto-written fuel) t (split_at "{{" t) ps refl h

-- A template whose parts were found is what those parts write: the plain text as it stands and
-- each variable between double braces.
pub written-template_parts :
    (t : String) (ps : List TemplatePart) → template_parts t ≡ some (ok ps) → written ps ≡ t
unfolding template_parts
written-template_parts t ps = upto-written (suc (chars t)) t ps

before_total : (p : TemplatePart) (r : Parts) → is_some r ≡ true → is_some (before p r) ≡ true
before_total p none h = h
before_total p (some (err e)) h = refl
before_total p (some (ok ps)) h = refl

shorter :
    (text t a b : String)
    → split_at text t ≡ some (a, b)
    → chars t ≡ chars a + (chars text + chars b)
shorter text t a b h =
    ap chars (split_at_lem text t a b h)
    ∙ omega (arith, length-append a (text <> b), length-append text b)

module _ (n : ℕ) (rest : String → Parts)
    (enough : (t : String) → chars t < n → is_some (rest t) ≡ true) where
  placeholder_total :
      (tail : String) (o : Option (String × String))
      → chars tail < n
      → split_at "}}" tail ≡ o
      → is_some (placeholder rest o) ≡ true
  unfolding placeholder
  placeholder_total tail none small e = refl
  placeholder_total tail (some (name, after)) small e = elim (Bool-cases (valid_id name)) [
    | inr bad ↦ rw bad refl
    | inl good ↦ rw good (
        before_total (variable name) (rest after)
          (enough after (omega (arith, shorter "}}" tail name after e))))
  ]

  turn_total :
      (t : String) (o : Option (String × String))
      → chars t < suc n
      → split_at "{{" t ≡ o
      → is_some (turn rest t o) ≡ true
  unfolding turn
  turn_total t none small e = refl
  turn_total t (some (start, tail)) small e =
      before_total (plain start) (placeholder rest (split_at "}}" tail)) (
        placeholder_total tail (split_at "}}" tail) (omega (arith, shorter "{{" t start tail e))
          refl)

upto_total : (n : ℕ) (t : String) → chars t < n → is_some (parts_upto n t) ≡ true
unfolding parts_upto
upto_total zero t small = ground arith
upto_total (suc n) t small =
    turn_total n (parts_upto n) (upto_total n) t (split_at "{{" t) small refl

-- The loop over a template always ends, with its parts or with an error.
pub template_parts_total : (t : String) → is_some (template_parts t) ≡ true
unfolding template_parts
template_parts_total t = upto_total (suc (chars t)) t (omega arith)
