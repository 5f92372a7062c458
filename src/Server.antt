-- ===== src/Server.antt =====
-- The session of crates/server/src/lib.rs.
pub mod Client
pub mod Session
pub mod Create
pub mod Handler
pub mod Reply
pub mod Dispatch
pub mod Delivery
