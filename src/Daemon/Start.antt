-- ===== src/Daemon/Start.antt =====
-- `caterm start` in the foreground: the branch `Mode::Start` of `main` (caterm/src/main.rs).
use caterm.Prelude.{refl, ap, ◌∙◌, ℕ, false, List, ◌++◌, if◌then◌else◌, ◌≡◌, arith}
use caterm.Text.{Text, codes}
use caterm.Outcome.{Outcome, ok, err, panic, ◌>>=◌}
use caterm.Local.{Dial}
use caterm.Server.State.{ShellConfig, new_server}
use caterm.Daemon.Files.{Disk, remove_metadata, read_metadata, Files, read_metadata}
use caterm.Daemon.Lifecycle.{
  remove_socket, open_daemon, close_daemon, is_server_running, pings, cleanup_stale_socket,
  already_running,
}
use caterm.Daemon.Laws.{cleared, opened, open_daemon_lem}
use caterm.Daemon.Run.{Message, System, Left, run}

abbrev pub server_running : Text → Text
server_running socket_path = codes "Caterm server is already running at " ++ socket_path

reads-open_daemon :
    (disk : Disk) (path : Text) (pid : ℕ) (f f' : Files)
    → open_daemon disk path pid f ≡ (ok tt, f')
    → disk.read_fails ≡ false
unfolding open_daemon cleanup_stale_socket read_metadata ◌>>=◌
reads-open_daemon disk path pid f f' opens = ground arith

cleanup-opened :
    (disk : Disk) (path : Text) (pid : ℕ) (f : Files)
    → disk.read_fails ≡ false
    → disk.remove_fails ≡ false
    → disk.remove_socket_fails ≡ false
    → cleanup_stale_socket disk path (opened path pid f) ≡ (
        if disk.pid_is_alive pid
        then (err (already_running path pid), opened path pid f)
        else (ok tt, cleared f))
unfolding cleanup_stale_socket read_metadata remove_metadata remove_socket ◌>>=◌
cleanup-opened disk path pid f reads removes removes' = ground arith

cleanup-cleared :
    (disk : Disk) (path : Text) (f : Files)
    → disk.read_fails ≡ false
    → cleanup_stale_socket disk path (cleared f) ≡ (ok tt, cleared f)
unfolding cleanup_stale_socket read_metadata remove_metadata remove_socket ◌>>=◌
cleanup-cleared disk path f reads = ground arith

module _ (config : ShellConfig) (socket_path : Text) (dial : Dial) (system : System) where
  abbrev pub refuse : Text → Files → Left
  refuse message f = record { result = err message; server = new_server config; files = f }

  -- `?` on the cleaning, with the run behind it.
  abbrev pub run_cleaned : List Message → Outcome (Unit {0}) × Files → Left
  run_cleaned messages (ok u, f) = run system socket_path messages (new_server config) f
  run_cleaned messages (err message, f) = refuse message f
  run_cleaned messages (panic, f) = record { result = panic; server = new_server config; files = f }

  -- The ping of `is_server_running` goes as `dial` says.
  unfoldable pub run_start : List Message → Files → Left
  run_start messages f =
      if is_server_running socket_path dial f
      then refuse (server_running socket_path) f
      else run_cleaned messages (cleanup_stale_socket system.disk socket_path f)

  run_start-opened :
      (messages : List Message) (pid : ℕ) (f : Files)
      → system.disk.read_fails ≡ false
      → system.disk.remove_fails ≡ false
      → system.disk.remove_socket_fails ≡ false
      → run_start messages (opened socket_path pid f) ≡ (
          if pings socket_path dial
          then refuse (server_running socket_path) (opened socket_path pid f)
          else if system.disk.pid_is_alive pid
          then refuse (already_running socket_path pid) (opened socket_path pid f)
          else run system socket_path messages (new_server config) (cleared f))
  unfolding run_start is_server_running
  run_start-opened messages pid f reads removes removes' =
      ground (arith, cleanup-opened system.disk socket_path pid f reads removes removes')

  run_start-cleared :
      (messages : List Message) (f : Files)
      → system.disk.read_fails ≡ false
      → run_start messages (cleared f)
        ≡ run system socket_path messages (new_server config) (cleared f)
  unfolding run_start is_server_running
  run_start-cleared messages f reads = rw (cleanup-cleared system.disk socket_path f reads) refl

  -- A daemon has opened its files, and the system refuses no removal. A start on the same socket then
  -- fails, and leaves the files as they were, when the daemon answers a ping or, where it does not, as
  -- long as its process is alive; when the process has died without closing its files, and also when
  -- the daemon has closed them, the start is a run from no socket and no metadata on the state file that
  -- was there.
  pub run_start-open_daemon :
      (messages : List Message) (pid : ℕ) (f f' : Files)
      → open_daemon system.disk socket_path pid f ≡ (ok tt, f')
      → system.disk.remove_fails ≡ false
      → system.disk.remove_socket_fails ≡ false
      → let anew = run system socket_path messages (new_server config) (cleared f) in
        (run_start messages f' ≡ (
          if pings socket_path dial
          then refuse (server_running socket_path) f'
          else if system.disk.pid_is_alive pid
          then refuse (already_running socket_path pid) f'
          else anew))
        × (run_start messages (close_daemon system.disk socket_path f') ≡ anew)
  run_start-open_daemon messages pid f f' opens removes removes' =
      let reads = reads-open_daemon system.disk socket_path pid f f' opens in
      let (same, _, closed) =
        open_daemon_lem system.disk socket_path pid pid f f' opens removes removes' in
      (
        rw same (run_start-opened messages pid f reads removes removes'),
        ap (run_start messages) closed ∙ run_start-cleared messages f reads,
      )
