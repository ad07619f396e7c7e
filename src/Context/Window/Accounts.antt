-- ===== src/Context/Window/Accounts.antt =====
-- rust/crates/zf-context/src/window.rs: how often an identifier occurs in a tree, in all its groups,
-- before and after an item is taken out or exchanged.
pub mod Swapping
pub mod Taking
use zedflow.Base.{◌<◌, arith, count, eq_refl}
use zedflow.Context.Window.{WindowItem, group, fragment, item_id}
use zedflow.Context.Window.Forms.{ids, ids_of}

-- The identifier of an item is among its identifiers.
pub count-item_id : (w : WindowItem) → 0 < count (item_id w) (ids_of w)
unfolding item_id ids
count-item_id (group id label children) = rw (eq_refl id) (omega arith)
count-item_id (fragment id role format value read) = rw (eq_refl id) (omega arith)
