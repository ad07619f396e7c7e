-- ===== src/Context/Fragment.antt =====
-- rust/crates/zf-context/src/context.rs: the parts of a strategy that a window keeps.
use zedflow.Base.{String, Bool, true, false}
use zedflow.Core.Types.{DataType}

pub data FragmentRole : Type 0 where
  instruction content : FragmentRole

pub data FragmentFormat : Type 0 where
  text json media adk_messages : FragmentFormat

pub record ContextCapability : Type 0 where
  pub id : String
  pub input : DataType
  pub output : DataType

-- `*role == FragmentRole::Instruction`, `*format != FragmentFormat::Text`
unfoldable pub is_instruction : FragmentRole → Bool
is_instruction instruction = true
is_instruction content = false

unfoldable pub is_text : FragmentFormat → Bool
is_text text = true
is_text _ = false
