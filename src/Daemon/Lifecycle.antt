-- ===== src/Daemon/Lifecycle.antt =====
-- Starting, stopping and asking for a daemon (caterm/src/session_manager/server.rs).
use caterm.Prelude.{
  ℕ, Bool, true, false, ◌&&◌, ◌||◌, not, Option, none, some, is_some, map_opt, unwrap_or, ◌++◌,
  if◌then◌else◌,
}
use caterm.Text.{Text, codes}
use caterm.Text.Decimal.{to_string}
use caterm.Outcome.{ok, err, panic, guard, lift, gets, modify, pure, ◌>>=◌, ◌>>◌}
use caterm.Local.{Dial, send_client_request}
use caterm.Daemon.Paths.{metadata_path, parent}
use caterm.Daemon.Files.{
  DaemonMetadata, Files, Disk, Call, read_metadata, write_metadata, remove_metadata,
}

pub data DaemonStatus : Type 0 where
  running : Option ℕ → DaemonStatus
  stale : ℕ → Text → Bool → DaemonStatus
  stopped : DaemonStatus

-- The process of the metadata is alive.
abbrev pub names_alive : Disk → Option DaemonMetadata → Bool
names_alive disk none = false
names_alive disk (some metadata) = disk.pid_is_alive metadata.pid

abbrev pub recorded_pid : Option DaemonMetadata → ℕ
recorded_pid metadata = unwrap_or (map_opt (λ m. m.pid) metadata) 0

abbrev pub already_running : Text → ℕ → Text
already_running socket_path pid =
    codes "daemon already appears to be running at "
    ++ (socket_path ++ (codes " with pid " ++ to_string pid))

module _ (disk : Disk) (socket_path : Text) where
  -- `tokio::fs::remove_file(socket_path)` on a socket that is there
  unfoldable pub remove_socket : Call (Unit {0})
  remove_socket = do
    lift (
        guard (not disk.remove_socket_fails)
          (codes "failed to remove stale socket " ++ socket_path))
    modify (λ f. record f { socket = false })

  abbrev pub when : Bool → Call (Unit {0}) → Call (Unit {0})
  when b m f = elim b [ true ↦ m f | false ↦ (ok tt, f) ]

  unfoldable pub cleanup_stale_socket : Call (Unit {0})
  unfolding read_metadata remove_metadata remove_socket
  cleanup_stale_socket = do
    metadata ← read_metadata disk socket_path
    exists ← gets (λ f. f.socket)
    lift (
        guard (not (names_alive disk metadata && exists))
          (already_running socket_path (recorded_pid metadata)))
    when exists remove_socket
    when (is_some metadata) (remove_metadata disk socket_path)

  -- The first steps of `run`: the socket is bound and the metadata written.
  unfoldable pub open_daemon : ℕ → Call (Unit {0})
  unfolding cleanup_stale_socket write_metadata
  open_daemon pid = do
    cleanup_stale_socket
    lift (guard (not disk.create_fails) (codes "failed to create " ++ parent socket_path))
    exists ← gets (λ f. f.socket)
    lift (guard (not (exists || disk.bind_fails)) (codes "failed to bind " ++ socket_path))
    modify (λ f. record f { socket = true })
    write_metadata disk socket_path pid

  -- A call whose error is only logged.
  abbrev pub logged : Call (Unit {0}) → Files → Files
  logged m f = (m f).1

  -- The last steps of `run`.
  unfoldable pub close_daemon : Files → Files
  unfolding remove_metadata remove_socket
  close_daemon f = logged (remove_metadata disk socket_path) (logged remove_socket f)

-- A ping over a connection that goes as `dial` says.
abbrev pub pings : Text → Dial → Bool
pings socket_path dial = elim (send_client_request socket_path dial) [
  | ok r ↦ r.ok
  | err message ↦ false
  | panic ↦ false
]

unfoldable pub is_server_running : Text → Dial → Files → Bool
is_server_running socket_path dial f = if not f.socket then false else pings socket_path dial

abbrev pub status_of : Text → Bool → Bool → Option DaemonMetadata → DaemonStatus
status_of socket_path true exists metadata = running (map_opt (λ m. m.pid) metadata)
status_of socket_path false exists (some m) = stale m.pid (metadata_path socket_path) exists
status_of socket_path false true none = stale 0 (metadata_path socket_path) true
status_of socket_path false false none = stopped

unfoldable pub daemon_status : Disk → Text → Dial → Call DaemonStatus
unfolding read_metadata is_server_running
daemon_status disk socket_path dial = do
  exists ← gets (λ f. f.socket)
  metadata ← read_metadata disk socket_path
  alive ← gets (is_server_running socket_path dial)
  pure (status_of socket_path alive exists metadata)
