-- ===== src/Daemon.antt =====
-- The files of a daemon (caterm/src/session_manager/daemon_state.rs) and what its start, its end and
-- `daemon_status` do with them (server.rs there). They are those of one socket path.
pub mod Paths
pub mod Files
pub mod Lifecycle
pub mod Laws
pub mod Run
pub mod Start
