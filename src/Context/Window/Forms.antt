-- ===== src/Context/Window/Forms.antt =====
-- What `validate` establishes of a window: the invariant that every edit keeps.
use zedflow.Base.{
  ℕ, ◌+◌, ◌≤◌, ◌<◌, String, ◌≡◌, subst, true, false, not, ◌&&◌, ◌||◌, none, some, List, [], ◌∷◌,
  ◌++◌, arith, eq_iff, leb, if◌then◌else◌, length, length-append, any, All, contains,
  contains-append, count, count-append, count_of_absent, sum,
}
use zedflow.Base.Text.{is_blank}
use zedflow.Base.Outcome.{ok, >>=-eq-ok, >>-eq-ok, ok-injective, ensure, ensure-eq-ok}
use zedflow.Base.Maps.{Map, contains_key, values}
use zedflow.Base.Sets
use zedflow.Base.Sets.{Set, contains-insert, length-insert}
use zedflow.Json.{Value}
use zedflow.Context.Fragment.{
  FragmentRole, FragmentFormat, instruction, text, is_instruction, is_text,
}
use zedflow.Context.Window.{
  WindowItem, WindowItems, group, fragment, done, entry, PreparedWindow, max_items, max_depth,
  max_bytes, fits, within_depth, admit, check_label, check_fragment, check_each, check_item, write,
  write_all, or_limit, validate,
}

-- The identifiers of all items, in the order of the document.
unfoldable mutual
  pub ids : WindowItems → List String
  ids done = []
  ids (entry w ws) = ids_of w ++ ids ws

  pub ids_of : WindowItem → List String
  ids_of (group id label children) = id ∷ ids children
  ids_of (fragment id role format value read) = id ∷ []

-- What is asked of each item at its depth, identifiers apart.
mutual
  pub data FormsEach (sources : Map String) : ℕ → WindowItems → Type 0 where
    nothing : {depth : ℕ} → FormsEach sources depth done
    more :
        {depth : ℕ} {w : WindowItem} {ws : WindowItems}
        → FormsItem sources depth w
        → FormsEach sources depth ws
        → FormsEach sources depth (entry w ws)

  pub data FormsItem (sources : Map String) : ℕ → WindowItem → Type 0 where
    group_form :
        {depth : ℕ} {id label : String} {children : WindowItems}
        → is_blank id ≡ false
        → is_blank label ≡ false
        → depth < max_depth
        → FormsEach sources (depth + 1) children
        → FormsItem sources depth (group id label children)
    fragment_form :
        {depth : ℕ} {id : String} {role : FragmentRole} {format : FragmentFormat} {value : Value}
        {read : List String}
        → is_blank id ≡ false
        → (role ≡ instruction → format ≡ text)
        → fits format value ≡ true
        → All (λ name. contains_key sources name ≡ true) read
        → FormsItem sources depth (fragment id role format value read)

-- A set grew by names that were not in it and that are distinct, and it stays within the limit.
record Adds (names : List String) (seen later : Set) : Type 0 where
  member : (x : String) → contains later x ≡ (contains seen x || contains names x)
  once : (x : String) → (if contains seen x then 1 else 0) + count x names ≤ 1
  size : length later ≡ length seen + length names
  room : length seen ≤ max_items → length later ≤ max_items

Adds-nil : (seen : Set) → Adds [] seen seen
Adds-nil seen = record {
  member = λ x. ground arith;
  once = λ x. ground arith;
  size = omega arith;
  room = λ h. h;
}

Adds-append : (a b : List String) (s t u : Set) → Adds a s t → Adds b t u → Adds (a ++ b) s u
Adds-append a b s t u h k = record {
  member = λ x. ground (arith, h.member x, k.member x, contains-append a b x);
  once =
      λ x. ground (arith, h.member x, h.once x, k.once x, count-append x a b, count_of_absent x a);
  size = omega (arith, h.size, k.size, length-append a b);
  room = λ r. k.room (h.room r);
}

Adds-insert :
    (id : String) (s : Set)
    → contains s id ≡ false
    → length s < max_items
    → Adds (id ∷ []) s (Sets.insert s id)
Adds-insert id s h k = record {
  member = λ x. ground (arith, contains-insert s id x);
  once = λ x. ground (arith, eq_iff id x, h);
  size = omega (arith, length-insert s id h);
  room = λ r. omega (arith, length-insert s id h);
}

-- What the checks in front of the `match` give.
admit_facts :
    (id : String) (seen : Set)
    → admit id seen ≡ ok tt
    → (is_blank id ≡ false) × (contains seen id ≡ false) × (length seen < max_items)
unfolding admit
admit_facts id seen h = ground arith

admit_sound :
    (id : String) (seen : Set) → admit id seen ≡ ok tt → Adds (id ∷ []) seen (Sets.insert seen id)
admit_sound id seen h = let (_, free, room) = admit_facts id seen h in Adds-insert id seen free room

captured :
    (sources : Map String) (read : List String)
    → any (λ name. not (contains_key sources name)) read ≡ false
    → All (λ name. contains_key sources name ≡ true) read
captured sources [] h = tt
captured sources (name ∷ read) h = (ground arith, captured sources read (ground arith))

text_of_instruction :
    (role : FragmentRole) (format : FragmentFormat)
    → not (is_instruction role && not (is_text format)) ≡ true
    → role ≡ instruction
    → format ≡ text
unfolding is_instruction is_text
text_of_instruction role format h e = ground arith

check_fragment_facts :
    (sources : Map String) (id : String) (role : FragmentRole) (format : FragmentFormat)
    (value : Value) (read : List String)
    → check_fragment sources id role format value read ≡ ok tt
    → (not (is_instruction role && not (is_text format)) ≡ true)
      × (fits format value ≡ true)
      × (any (λ name. not (contains_key sources name)) read ≡ false)
unfolding check_fragment
check_fragment_facts sources id role format value read h = ground arith

check_label_fact : (id label : String) → check_label id label ≡ ok tt → is_blank label ≡ false
unfolding check_label
check_label_fact id label h = ground arith

within_depth_fact : (depth : ℕ) → within_depth (depth + 1) ≡ ok tt → depth < max_depth
unfolding within_depth
within_depth_fact depth h = ground arith

mutual
  unfolding check_each ids

  check_each_sound :
      (depth : ℕ) (sources : Map String) (ws : WindowItems) (seen later : Set)
      → check_each depth sources ws seen ≡ ok later
      → Adds (ids ws) seen later × FormsEach sources depth ws
  check_each_sound depth sources done seen later h =
      (subst (Adds [] seen) (ok-injective seen later h) (Adds-nil seen), nothing)
  check_each_sound depth sources (entry w ws) seen later h =
      let (mid, first, rest) =
        >>=-eq-ok (check_item depth sources w seen) (λ t. check_each depth sources ws t) h in
      let (a, f) = check_item_sound depth sources w seen mid first in
      let (b, g) = check_each_sound depth sources ws mid later rest in
      (Adds-append (ids_of w) (ids ws) seen mid later a b, more f g)

  check_item_sound :
      (depth : ℕ) (sources : Map String) (w : WindowItem) (seen later : Set)
      → check_item depth sources w seen ≡ ok later
      → Adds (ids_of w) seen later × FormsItem sources depth w
  check_item_sound depth sources (group id label children) seen later h =
      let (admitted, h₁) = >>-eq-ok (admit id seen) _ h in
      let (labelled, h₂) = >>-eq-ok (check_label id label) _ h₁ in
      let (deep, h₃) = >>-eq-ok (within_depth (depth + 1)) _ h₂ in
      let a = admit_sound id seen admitted in
      let (b, f) = check_each_sound (depth + 1) sources children (Sets.insert seen id) later h₃ in
      (
        Adds-append (id ∷ []) (ids children) seen (Sets.insert seen id) later a b,
        group_form (admit_facts id seen admitted).0 (check_label_fact id label labelled)
            (within_depth_fact depth deep) f,
      )
  check_item_sound depth sources (fragment id role format value read) seen later h =
      let (admitted, h₁) = >>-eq-ok (admit id seen) _ h in
      let (formed, h₂) = >>-eq-ok (check_fragment sources id role format value read) _ h₁ in
      let (role_fits, value_fits, known) =
        check_fragment_facts sources id role format value read formed in
      (
        subst (Adds (id ∷ []) seen) (ok-injective (Sets.insert seen id) later h₂)
            (admit_sound id seen admitted),
        fragment_form (admit_facts id seen admitted).0 (text_of_instruction role format role_fits)
            value_fits (captured sources read known),
      )

-- The counter lets a window's encoding through exactly when its chunks together stay within 16 MiB,
-- and then it has counted them all; `n` is what it has counted before.
pub write_all-sum :
    (n : ℕ) (sizes : List ℕ)
    → n ≤ max_bytes
    → write_all n sizes ≡ (if leb (n + sum sizes) max_bytes then some (n + sum sizes) else none)
unfolding write_all write
write_all-sum n [] h = ground arith
write_all-sum n (size ∷ rest) h = ground (arith, write_all-sum (n + size) rest)

-- A window that `validate` accepts.
pub record IsWellFormed (chunks : PreparedWindow → List ℕ) (w : PreparedWindow) : Type 0 where
  pub strategy : is_blank w.strategy_id ≡ false
  pub revision : is_blank w.strategy_revision ≡ false
  pub sources : All (λ v. is_blank v ≡ false) (values w.source_revisions)
  pub once : (x : String) → count x (ids w.items) ≤ 1
  pub few : length (ids w.items) ≤ max_items
  pub forms : FormsEach w.source_revisions 0 w.items
  pub small : sum (chunks w) ≤ max_bytes

none_blank : (xs : List String) → any is_blank xs ≡ false → All (λ v. is_blank v ≡ false) xs
none_blank [] h = tt
none_blank (x ∷ xs) h = (ground arith, none_blank xs (ground arith))

or_limit_fact : (sizes : List ℕ) → or_limit (write_all 0 sizes) ≡ ok tt → sum sizes ≤ max_bytes
or_limit_fact sizes h = ground (arith, write_all-sum 0 sizes)

-- A window that `validate` accepts names its strategy and the revision of each source; its items
-- have distinct identifiers that are not blank, at most 4096 of them, in groups with a label and
-- nested at most 64 deep; each fragment's value fits its format, an instruction is text, and every
-- source of a fragment has a captured revision; and the encoding is at most 16 MiB long.
pub validate-IsWellFormed :
    (chunks : PreparedWindow → List ℕ) (w : PreparedWindow)
    → validate chunks w ≡ ok tt
    → IsWellFormed chunks w
unfolding validate
validate-IsWellFormed chunks w h =
    let (identified, h₁) =
      >>-eq-ok (ensure (not (is_blank w.strategy_id || is_blank w.strategy_revision)) _) _ h in
    let (revised, h₂) = >>-eq-ok (ensure (not (any is_blank (values w.source_revisions))) _) _ h₁ in
    let (_, h₃) = >>-eq-ok (within_depth 0) _ h₂ in
    let (later, checked, h₄) =
      >>=-eq-ok (check_each 0 w.source_revisions w.items [])
        (λ _. or_limit (write_all 0 (chunks w))) h₃ in
    let (adds, forms) = check_each_sound 0 w.source_revisions w.items [] later checked in
    let named : not (is_blank w.strategy_id || is_blank w.strategy_revision) ≡ true =
      ensure-eq-ok _ _ identified in
    let known : not (any is_blank (values w.source_revisions)) ≡ true = ensure-eq-ok _ _ revised in
    record {
      strategy = ground (arith, named);
      revision = ground (arith, named);
      sources = none_blank (values w.source_revisions) (ground (arith, known));
      once = λ x. omega (arith, adds.once x);
      few = omega (arith, adds.size, adds.room (omega arith));
      forms = forms;
      small = or_limit_fact (chunks w) h₄;
    }
