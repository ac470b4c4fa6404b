-- ===== src/Relay.antt =====
-- The relay between a daemon and its remote clients (caterm-relay, and caterm/src/relay.rs).
pub mod Auth
pub mod Routing
pub mod Client
pub mod Handshake
pub mod Forward
pub mod Connection
