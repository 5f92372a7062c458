-- ===== src/Diff.antt =====
-- The sender of updates, crates/remote/src/lib.rs: `build_update_msg` writes how one frame differs
-- from another. `Diff/Patch` has the patch of changed cells, `Diff/Scroll` the search for a scroll,
-- `Diff/Fill` the runs of uniform rows and `Diff/Update` the whole message.
pub mod Patch
pub mod Scroll
pub mod Fill
pub mod Update
