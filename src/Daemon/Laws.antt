-- ===== src/Daemon/Laws.antt =====
-- What starting, asking and stopping come to.
use caterm.Prelude.{
  ℕ, Bool, true, false, ◌&&◌, Option, none, some, if◌then◌else◌, ◌≡◌, ◌≢◌, ◌⊎◌, arith,
}
use caterm.Text.{Text}
use caterm.Outcome.{ok, err, ◌>>=◌}
use caterm.Local.{Dial}
use caterm.Daemon.Paths.{metadata_path}
use caterm.Daemon.Files.{
  DaemonMetadata, File, missing, garbled, stored, Files, Disk, read_metadata, remove_metadata,
  write_metadata,
}
use caterm.Daemon.Lifecycle.{
  stale, names_alive, cleanup_stale_socket, remove_socket, open_daemon, close_daemon,
  is_server_running, daemon_status, already_running,
}

-- What the metadata says, as far as it decodes.
abbrev pub content : File DaemonMetadata → Option DaemonMetadata
content missing = none
content garbled = none
content (stored m) = some m

-- The socket is there and the process of the metadata is alive.
abbrev pub lives : Disk → Files → Bool
lives disk f = names_alive disk (content f.metadata) && f.socket

abbrev pub cleared : Files → Files
cleared f = record f { socket = false; metadata = missing }

-- Cleaning up ends without a panic in one of three ways: well, with neither a socket nor metadata; by
-- an error, with the files as they were; or by an error, with the socket removed and the rest as it
-- was. In the first and the last case there was no socket beside metadata that name a process which is
-- alive. The state file stays.
pub cleanup_stale_socket_lem :
    (disk : Disk) (path : Text) (f : Files)
    → let (r, f') = cleanup_stale_socket disk path f in
      ((r ≡ ok tt) × (lives disk f ≡ false) × (f' ≡ cleared f))
      ⊎ ((message : Text) × (r ≡ err message) × (f' ≡ f))
      ⊎ ((message : Text) × (r ≡ err message)
          × (lives disk f ≡ false)
          × (f' ≡ record f { socket = false }))
unfolding cleanup_stale_socket read_metadata remove_metadata remove_socket ◌>>=◌
cleanup_stale_socket_lem disk path f = ground arith

-- After `daemon_status` has called a recorded daemon stale, and where the system refuses no removal,
-- the next cleaning removes its socket and its metadata exactly when its process has ended or its
-- socket is gone; otherwise it fails and changes nothing.
pub cleanup_stale_socket-stale :
    (disk : Disk) (path : Text) (dial : Dial) (f : Files) (pid : ℕ) (there : Bool)
    → daemon_status disk path dial f ≡ (ok (stale pid (metadata_path path) there), f)
    → pid ≢ 0
    → disk.remove_fails ≡ false
    → disk.remove_socket_fails ≡ false
    → cleanup_stale_socket disk path f ≡ (
        if disk.pid_is_alive pid && there
        then (err (already_running path pid), f)
        else (ok tt, cleared f))
unfolding cleanup_stale_socket read_metadata remove_metadata remove_socket daemon_status
    is_server_running ◌>>=◌
cleanup_stale_socket-stale disk path dial f pid there asked recorded removes removes' = ground arith

abbrev pub opened : Text → ℕ → Files → Files
opened path pid f = record f {
  socket = true;
  metadata = stored (record { pid = pid; socket_path = path });
}

-- A daemon that has opened its files has a socket and its process id in the metadata. As long as it is
-- alive a second one fails to open them and changes nothing, and when it has died without closing
-- them the second one opens them in its place. Closing them removes both and leaves the state file.
-- The system answers the second one as the first one, and refuses no removal.
pub open_daemon_lem :
    (disk : Disk) (path : Text) (pid second : ℕ) (f f' : Files)
    → open_daemon disk path pid f ≡ (ok tt, f')
    → disk.remove_fails ≡ false
    → disk.remove_socket_fails ≡ false
    → (f' ≡ opened path pid f)
      × (open_daemon disk path second f' ≡ (
          if disk.pid_is_alive pid
          then (err (already_running path pid), f')
          else (ok tt, opened path second f')))
      × (close_daemon disk path f' ≡ cleared f)
unfolding open_daemon close_daemon write_metadata cleanup_stale_socket read_metadata remove_metadata
    remove_socket ◌>>=◌
open_daemon_lem disk path pid second f f' done removes removes' = ground arith
