-- ===== src/Server.antt =====
-- The session manager (caterm/src/session_manager/server.rs): the state, what each request does to
-- it, and the theorems about them.
pub mod State
pub mod Resolve
pub mod Filter
pub mod Client
pub mod Runtime
pub mod Create
pub mod Select
pub mod Delete
pub mod Dispatch
pub mod Restore
pub mod Valid
pub mod Lives
pub mod Directory
