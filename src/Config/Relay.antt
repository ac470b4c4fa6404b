-- ===== src/Config/Relay.antt =====
-- A daemon that is set up by its environment finds its place at the relay (caterm/src/config.rs,
-- caterm-relay/src/auth.rs and main.rs).
use caterm.Text.{Text}
use caterm.Relay.Auth
use caterm.Relay.Auth.{trim}
