-- ===== src/Core/Diagnostic.antt =====
-- rust/crates/zf-core/src/diagnostics.rs
use zedflow.Base.{String}

pub record Diagnostic : Type 0 where
  pub code : String
  pub path : String
  pub message : String

-- `Diagnostic::new`
abbrev pub diagnostic : String → String → String → Diagnostic
diagnostic c p m = record { code = c; path = p; message = m }
