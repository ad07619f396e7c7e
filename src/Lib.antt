-- ===== src/Lib.antt =====
-- Zedflow: the core of the composition engine. A flow declares entries, branches, datasets and
-- inferences; bridges connect flows; a catalog of both is resolved into a runtime graph; and at run
-- time a context strategy is captured as a window of fragments that people and agents edit. This
-- library models the parts that decide whether such a composition is well formed.
--
-- Parts, and the code that each models (paths from the repository's root):
-- - Json: the readers of `serde_json::Value` that the crates call.
-- - Core.Diagnostic, Core.Identity: rust/crates/zf-core/src/diagnostics.rs and identity.rs.
-- - Core.Types: rust/crates/zf-core/src/types.rs, `validate_type` with its walk `check_type`, and
--   `compatible` with `accepts`. Core.Values: `validate_value` and `check_value`. The proofs are in
--   Core.Types.Order (compatibility as an order), Core.Values.Totality (the walk of a type bounds the
--   walk of a value) and Core.Values.Flow (values move along compatibility).
-- - Context.Fragment, Context.Window: rust/crates/zf-context/src/window.rs, `validate`. Its child
--   Patch has `find_mut`, `remove` (as `take`), `apply_patches` and `patched`; Capture has `capture`
--   and `decode`; Tools has the grants and scopes. Forms states the invariant of windows, Edits says
--   where an edit changes the tree (Edits.Searches what the two searches give), Accounts counts
--   identifiers (Taking for what is removed, Swapping for what is exchanged in place), and Moves is
--   about windows under edits and about moves that are refused.
-- - Context.Language: the syntax of strategies in rust/crates/zf-context/src/context.rs, the library
--   of context_library.rs, `resolved_types` (Types) and `template_parts` (Template).
-- - Context.Check: the function `check` of context.rs and its `Checker`. The module itself has the
--   state and small methods, Terms `collection_item` and the arms of `expression`, Recursion
--   `predicate`, `function` and the three methods that call each other, Blocks `blocks` and `check`,
--   and Entries the functions that call `check`. Grounded says which types `resolved` can resolve;
--   Sound has the rules by which a method keeps to what is known, with Reports and Scopes for the
--   steps that report or bind, and goes through the methods in Terms, Arms, Conditions, Recursion and
--   Blocks, and in Marked and Identifiers once more for the identifiers of blocks; Accepted and Typing
--   draw the conclusions.
-- - Context.Evaluate: the `Evaluator` of context.rs. Its child State has its fields and small
--   methods, Values the type `ContextValue` with `equivalent` and `measured_bytes`, Values.Numbers
--   `compare_values`, Terms and Expressions `expression`, `predicate` and `keyed`, Blocks `blocks`,
--   and Program `evaluate_with_limits`, which first checks its strategy. Runs is what each method
--   keeps: Steps, Scopes, Loops, Terms, Collections, Arms and Expressions go through the terms, Fresh,
--   Delivers, Turns, Leaving, Circles, Looped and Blocks through the blocks, Required says which
--   strategies are meant, and Program joins them with `capture`. Occurrences is about the identifiers
--   in loops, Values.Equivalence and Values.Alike about `equivalent`, and Whole joins Context.Check
--   with the evaluation.
-- - Flows.Composition, Flows.Predicate: rust/crates/zf-flows/src/composition.rs, and the conditions of
--   node_contracts.rs, whose limits Flows.Predicate.Limits proves.
-- - Compiler.Resolve: rust/crates/zf-compiler/src/resolve.rs. The module itself checks names,
--   contracts and flows; Bridges has `dependencies` and `can_reuse`; Instances has `InstanceResolver`
--   and `endpoint`; Wiring the loop over connections, Wiring.Data that over bindings; Plan the function `resolve`.
--   Selection, Search, Instancing, Routes and Total are the proofs, part by part; Graph says what a
--   graph is to satisfy, Sound joins the parts, and Carries is about values on routes.
-- - Runtime.Predicates: rust/crates/zf-runtime/src/predicates.rs, the evaluation of conditions on a
--   state, and in Typed that accepted conditions are decided.
-- - Examples: the theorems at concrete inputs.
--
-- How the parts meet: `resolve` validates types by Core.Types, conditions by Flows.Predicate, and
-- joins ports by `compatible`, whose soundness for values gives what a route may carry. What `check`
-- accepts is what the evaluation assumes, and what the evaluation reports as read is what `capture`
-- demands revisions of.
--
-- Representation. A `BTreeMap` is a list of entries in the order of its keys, a set a list of its
-- elements in order. What the source pushes onto a list of diagnostics is returned or kept in a
-- state record. A `Result` is Base.Outcome; Base.Panic is for code that may panic on a missing key or
-- whose recursion takes fuel. Words that the language reserves are renamed: the field `data` is
-- `exposed`, the field `instance` is `instance_name`, the role `Data` is `content`.
--
-- Bounds. `check_type` and `check_value` take 65 levels, one more than the depth that the source
-- refuses. `dependencies` and `InstanceResolver::resolve` take 129, one more than the 128 names that
-- the source lets be visited; `can_reuse` takes one step more than all requirements together. The
-- methods of `Checker` take 65 less the depth in the source, which refuses depths above 64. The
-- calls of `Evaluator::expression` take one unit of fuel more than the operation budget, since each
-- call counts one operation; `equivalent` takes the levels of the value, `template_parts` the
-- characters of the template, and `occurrence_id` the number of identifiers. The results below
-- include that none of those that the evaluation calls runs out.
--
-- A reference `Shared { root, pointer }` of a context value is the value that it refers to. The
-- evaluator is modelled as a state monad whose answers are a result with the state, a panic (a map
-- indexed at a missing key), or fuel that ran out.
--
-- Parameters, for code outside the repository: the serializers of windows, predicates and items, and
-- the debug text of a type. A window's encoding is the list of the sizes of its chunks. The evaluator
-- also takes the comparison of JSON values, their text, the operations on `f64`, and the `sort_by` of
-- slices, of whose answer nothing is assumed; that it does not panic is, as its order is total on the
-- texts and finite numbers that the check lets be keys.
--
-- Not modelled: the flow schema and the compiler of flow graphs, code generation and exports, the
-- rest of the runtime, with its agents and transports, storage, the server, the command line and the
-- web client.
pub mod Base
pub mod Json
pub mod Runtime
pub mod Core
pub mod Context
pub mod Flows
pub mod Compiler
pub mod Examples
