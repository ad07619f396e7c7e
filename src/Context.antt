-- ===== src/Context.antt =====
-- rust/crates/zf-context: prepared context windows, and the language that prepares them.
pub mod Fragment
pub mod Window
pub mod Language
pub mod Evaluate
pub mod Check
