-- ===== src/Context/Evaluate/Runs/Arms.antt =====
-- rust/crates/zf-context/src/context.rs: the loops of `Evaluator::expression` and its calls keep the
-- relation of the `Evaluator`, when the recursive calls do.
use zedflow.Base.{
  ℕ, suc, ◌+◌, ◌<◌, String, ◌<>◌, ◌≡◌, refl, subst, inl, inr, Option, none, some, [], ◌∷◌,
}
use zedflow.Base.Outcome.{ok, err}
use zedflow.Base.Text.{decimal}
use zedflow.Base.Maps
use zedflow.Base.Maps.{Map, values, All-get, get-insert-cases}
use zedflow.Base.Sets.{Set}
use zedflow.Context.Language
use zedflow.Context.Language.{
  ContextExpr, Exprs, NamedExprs, no_exprs, expr, no_named, ContextPredicate, ContextPredicates,
  no_predicates, Comparison, LibraryKind, ContextFunction, function_of,
}
use zedflow.Context.Evaluate.Values.{ContextValue, index}
use zedflow.Context.Evaluate.State.{
  missing, invalid, Inputs, Outside, Evaluator, Action, ◌>>=◌, Answer, gave, panicked, exhausted,
  and_then, or_invalid,
}
use zedflow.Context.Evaluate.Terms.{Eval, Test, same, called}
use zedflow.Context.Evaluate.Terms.Lists.{kept}
use zedflow.Context.Evaluate.Expressions.{
  keyed_turn, keyed, filter_turn, filtered, each_named, each_expr, each_argument, expression_node,
}
use zedflow.Context.Evaluate.Runs.{
  Ends, Subset, Runs, Within, After, Safe, Runs-refl, After-first, fuel_left, safe-bind, safe-pure,
  safe-or_invalid,
}
use zedflow.Context.Evaluate.Runs.Results.{Fact, AfterWith, then_with}
use zedflow.Context.Evaluate.Runs.Steps.{safe-items, safe-tick}
use zedflow.Context.Evaluate.Runs.Loops.{
  SafeFrom, from-safe, from-bind, from-scoped, from-collect, safe-from_reads,
}
use zedflow.Context.Evaluate.Runs.Required.{
  Requires, RequiresEach, RequiresNamed, RequiresTest, RequiresLibrary,
}
use zedflow.Context.Evaluate.Runs.Collections.{
  safe-charge_key, safe-keyed_values, Sound, called-ends,
}

module _ (given : Inputs) (outside : Outside) (n : ℕ) (eval : Eval) (test : Test)
    (safe-eval : (e : ContextExpr) (path : String) → Requires given e → Safe given n (eval e path))
    (safe-test : (p : ContextPredicate) (path : String)
      → RequiresTest given p
      → Safe given n (test p path))
    (library : RequiresLibrary given) where
  from-keyed_turn :
      (e : ContextExpr) (source : ContextValue) (name : String) (key : ContextExpr) (sources : Set)
      (path : String) (i : ℕ)
      → Requires given key
      → SafeFrom given sources n
          (keyed_turn given outside eval test e source name key sources path i)
  unfolding keyed_turn
  from-keyed_turn e source name key sources path i required =
      from-bind given sources n _ _ (from-safe given sources n _ (safe-tick given n path)) λ _.
        from-bind given sources n _ _
          (from-safe given sources n _ (safe-or_invalid given n (index source i)))
          λ v.
            from-bind given sources n _ _
              (from-scoped given sources n name v _ (safe-eval key path required))
              λ result.
                from-bind given sources n _ _
                  (from-safe given sources n _ (safe-charge_key given outside n e result path))
                  λ _. from-safe given sources n _ (safe-pure given n ((result, v) ∷ []))

  pub safe-keyed :
      (e value : ContextExpr) (name : String) (key : ContextExpr) (path : String)
      → Requires given value
      → Requires given key
      → Safe given n (keyed given outside eval test e value name key path)
  unfolding keyed
  safe-keyed e value name key path first later =
      safe-bind given n _ _ (safe-eval value path first) λ source.
        safe-bind given n _ _ (safe-items given n source path) λ count.
          safe-bind given n _ _
            (safe-from_reads given n _ λ sources.
              from-collect given sources n _ 0 count
                λ j. from-keyed_turn e source name key sources path j later)
            λ pairs. safe-keyed_values given outside n e pairs path

  from-filter_turn :
      (source : ContextValue) (name : String) (condition : ContextPredicate) (sources : Set)
      (path : String) (i : ℕ)
      → RequiresTest given condition
      → SafeFrom given sources n
          (filter_turn given outside eval test source name condition sources path i)
  unfolding filter_turn
  from-filter_turn source name condition sources path i required =
      from-bind given sources n _ _ (from-safe given sources n _ (safe-tick given n path)) λ _.
        from-bind given sources n _ _
          (from-safe given sources n _ (safe-or_invalid given n (index source i)))
          λ v.
            from-bind given sources n _ _
              (from-scoped given sources n name v _ (safe-test condition path required))
              λ selected. from-safe given sources n _ (safe-pure given n (kept v selected))

  pub safe-filtered :
      (value : ContextExpr) (name : String) (condition : ContextPredicate) (path : String)
      → Requires given value
      → RequiresTest given condition
      → Safe given n (filtered given outside eval test value name condition path)
  unfolding filtered
  safe-filtered value name condition path first later =
      safe-bind given n _ _ (safe-eval value path first) λ source.
        safe-bind given n _ _ (safe-items given n source path) λ count.
          safe-from_reads given n _ λ sources.
            from-collect given sources n _ 0 count
              λ j. from-filter_turn source name condition sources path j later

  pub safe-each_named :
      (es : NamedExprs) (out : Map ContextValue) (path : String)
      → RequiresNamed given es
      → Safe given n (each_named given outside eval test es out path)
  unfolding each_named Requires
  safe-each_named no_named out path required = safe-pure given n out
  safe-each_named (Language.named name e es) out path (first, later) =
      safe-bind given n _ _ (safe-eval e path first)
        λ v. safe-each_named es (Maps.insert out name v) path later

  pub safe-each_expr :
      (es : Exprs) (i : ℕ) (path : String)
      → RequiresEach given es
      → Safe given n (each_expr given outside eval test es i path)
  unfolding each_expr Requires
  safe-each_expr no_exprs i path required = safe-pure given n []
  safe-each_expr (expr e es) i path (first, later) =
      safe-bind given n _ _ (safe-eval e (path <> ".items[" <> decimal i <> "]") first) λ v.
        safe-bind given n _ _ (safe-each_expr es (suc i) path later)
          λ vs. safe-pure given n (v ∷ vs)

  -- The sources that the arguments of a call are bound to were read.
  abbrev ArgumentsSound : Fact (Map ContextValue × Map Set)
  ArgumentsSound bound t = Sound given outside n bound.1 t

  entered :
      (sources : Map Set) (name : String) (s t : Evaluator)
      → Runs s t
      → Within given t
      → Sound given outside n sources s
      → Sound given outside n (Maps.insert sources name t.reads) t
  entered sources name s t runs w sound k xs found =
      elim (get-insert-cases sources name k t.reads xs found) [
        | inl (_, same) ↦ subst (λ z. Subset z t.all_reads) same w.reads
        | inr (_, older) ↦ λ x h. runs.moves.all_reads x (sound k xs older x h)
      ]

  nothing_bound : (s : Evaluator) → Sound given outside n [] s
  unfolding Maps.get
  nothing_bound s k xs h = cc

  each_argument-ends :
      (es : NamedExprs) (bindings : Map ContextValue) (sources : Map Set) (path : String)
      (s : Evaluator)
      → RequiresNamed given es
      → Within given s
      → given.limits.max_steps < s.steps + n
      → Sound given outside n sources s
      → Ends
          (AfterWith given ArgumentsSound s)
          (each_argument given outside eval test es bindings sources path s)
  unfolding each_argument Requires Safe
  each_argument-ends no_named bindings sources path s required w fuel sound =
      (tt, Runs-refl given s, w, sound)
  each_argument-ends (Language.named name e es) bindings sources path s (first, later) w fuel
        sound =
      then_with given ArgumentsSound s (eval e path s) _ (safe-eval e path first s w fuel)
        λ v t runs w'.
          each_argument-ends es (Maps.insert bindings name v) (Maps.insert sources name t.reads)
            path t later w' (fuel_left given n s t runs fuel)
            (entered sources name s t runs w' sound)

  bound_call :
      (m : Action ContextValue)
      → Safe given n m
      → (s : Evaluator) (r : Answer (Map ContextValue × Map Set))
      → given.limits.max_steps < s.steps + n
      → Ends (AfterWith given ArgumentsSound s) r
      → Ends (After given s) (and_then r (λ bound. called given outside bound.0 bound.1 m))
  unfolding and_then
  bound_call m safe s (gave (ok bound) t) fuel (_, runs, w, sound) = After-first given s t _ runs (
      called-ends given outside n bound.0 bound.1 m safe t w (fuel_left given n s t runs fuel)
        sound)
  bound_call m safe s (gave (err (missing name)) t) fuel (known, runs, w, _) = (known, runs, w)
  bound_call m safe s (gave (err invalid) t) fuel (_, runs, w, _) = (tt, runs, w)
  bound_call m safe s panicked fuel ends = ends
  bound_call m safe s exhausted fuel ends = ends

  safe-found_function :
      (o : Option ContextFunction) (f : ContextFunction → Action ContextValue)
      → ((function : ContextFunction) → o ≡ some function → Safe given n (f function))
      → Safe given n (or_invalid o >>= f)
  unfolding and_then Safe
  safe-found_function none f each s w fuel = (tt, Runs-refl given s, w)
  safe-found_function (some function) f each s w fuel = each function refl s w fuel

  pub safe-call :
      (catalog : LibraryKind) (name : String) (arguments : NamedExprs) (path : String)
      → RequiresNamed given arguments
      → Safe given n
          (expression_node given outside eval test (ContextExpr.call catalog name arguments) path)
  unfolding expression_node Safe
  safe-call catalog name arguments path required =
      safe-found_function (function_of given.library catalog name) _ λ function found s w fuel.
        let inner = eval function.body (path <> ".call." <> name) in
        bound_call inner
          (safe-eval function.body (path <> ".call." <> name) (library catalog name function found))
          s (each_argument given outside eval test arguments [] [] path s) fuel
          (each_argument-ends arguments [] [] path s required w fuel (nothing_bound s))
