-- ===== src/Core.antt =====
-- rust/crates/zf-core: diagnostics, identities, data types and the check of values.
pub mod Diagnostic
pub mod Identity
pub mod Types
pub mod Values
