-- ===== src/Runtime.antt =====
-- rust/crates/zf-runtime: the evaluation of route conditions.
pub mod Predicates
