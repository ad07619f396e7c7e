-- ===== src/Compiler.antt =====
-- rust/crates/zf-compiler: resolution of bridges.
pub mod Resolve
