-- ===== src/Core/Identity.antt =====
-- rust/crates/zf-core/src/identity.rs: the namespaces and rights that the other crates use.
-- The opaque identities (`RunId`, `Revision` and the like) are their texts.
use zedflow.Base.{String}

pub data Scope : Type 0 where
  flow bridge : String → Scope
  runtime : Scope

pub data Permission : Type 0 where
  read write : Permission
