-- ===== src/Context/Evaluate/Blocks/Identities.antt =====
-- rust/crates/zf-context/src/context.rs: the items of a window before it is captured, and their
-- identifiers.
use zedflow.Base.{
  ℕ, zero, suc, String, ◌<>◌, Bool, Option, List, [], ◌∷◌, ◌++◌, if◌then◌else◌, length, contains,
}
use zedflow.Base.Outcome.{Outcome, ok, err}
use zedflow.Base.Sets
use zedflow.Base.Sets.{Set}
use zedflow.Context.Fragment.{FragmentRole, FragmentFormat}
use zedflow.Context.Window.Capture.{ResourceNeed, none_of}
use zedflow.Context.Evaluate.Values.{ContextValue}
use zedflow.Context.Evaluate.State.{AccessError, gave, exhausted, Action}

mutual
  pub data ContextItem : Type 0 where
    group : String → String → ContextItems → ContextItem
    fragment : String → FragmentRole → FragmentFormat → ContextValue → List String → ContextItem

  pub data ContextItems : Type 0 where
    no_items : ContextItems
    item : ContextItem → ContextItems → ContextItems

abbrev pub to_items : List ContextItem → ContextItems
to_items [] = no_items
to_items (x ∷ xs) = item x (to_items xs)

abbrev pub made_id : ContextItem → String
made_id (group id _ _) = id
made_id (fragment id _ _ _ _) = id

-- `required_by.push(path)`, when it is not there yet
abbrev pub required_at : String → ResourceNeed → ResourceNeed
required_at path need =
    if contains need.required_by path
    then need
    else record need { required_by = need.required_by ++ path ∷ [] }

-- `while !output_ids.insert(id.clone()) { id.push('_'); }`
unfoldable pub fresh_id : ℕ → String → Action String
fresh_id zero id s = exhausted
fresh_id (suc fuel) id s =
    if contains s.output_ids id
    then fresh_id fuel (id <> "_") s
    else gave (ok id) (record s { output_ids = Sets.insert s.output_ids id })

-- `occurrence_id`; of the candidates, which grow, at most as many are taken as there are ids.
unfoldable pub occurrence_id : String → String → Action String
unfolding fresh_id
occurrence_id id path s =
    if none_of s.iterations
    then gave (ok id) s
    else fresh_id (suc (length s.output_ids)) (id <> "@" <> path) s

abbrev pub popped : {A : Type 0} → List A → List A
popped [] = []
popped (x ∷ []) = []
popped (x ∷ y ∷ ys) = x ∷ popped (y ∷ ys)

abbrev pub Made : Type 0
Made = Option Bool × List ContextItem

-- `if let Ok(n) = … { … }`
abbrev pub if_ok :
    (ℕ → Action (List ContextItem)) → Outcome AccessError ℕ → Action (List ContextItem)
if_ok f (ok n) s = f n s
if_ok f (err e) s = gave (ok []) s
