-- ===== src/Flows.antt =====
-- rust/crates/zf-flows: compositions of flows and bridges, and the syntax of conditions.
pub mod Composition
pub mod Predicate
