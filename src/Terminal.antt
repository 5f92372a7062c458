-- ===== src/Terminal.antt =====
-- The receiver of updates, `TerminalState` of crates/remote/src/lib.rs: `apply_payload` reads a
-- decompressed update and changes the frame. `Terminal/Ops` has the cell operations, and
-- `Terminal/Feed` the decompression in front of them.
pub mod Ops
pub mod Payload
pub mod Feed
