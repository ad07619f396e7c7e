-- ===== src/Context/Evaluate.antt =====
-- rust/crates/zf-context/src/context.rs: the evaluation of strategies.
pub mod Values
pub mod State
pub mod Terms
pub mod Expressions
pub mod Blocks
pub mod Program
pub mod Whole
pub mod Runs
