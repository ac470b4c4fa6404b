-- ===== src/Daemon/Run.antt =====
-- `run` of the session manager (caterm/src/session_manager/server.rs) as a whole: its files, its
-- start on the saved state, the loop over what comes in, and its end.
pub mod Laws
pub mod Empty
use caterm.Prelude.{
  ℕ, Bool, true, false, ◌||◌, Option, none, some, List, [], ◌∷◌, if◌then◌else◌, ◌≡◌, ◌≢◌, refl, ◌⊎◌,
  inl, inr, arith,
}
use caterm.Text.{Text}
use caterm.Outcome.{Outcome, ok, err, panic, ◌>>=◌}
use caterm.Pty.{Host, Poll}
use caterm.Request.{SessionRequest}
use caterm.Snapshot.{ServerSnapshot}
use caterm.Server.State.{Server, ShellConfig, new_server, snapshot}
use caterm.Server.Dispatch
use caterm.Server.Dispatch.{run_command, run_attach, run_detach, run_tick}
use caterm.Server.Restore.{start_server, shutdown_all}
use caterm.Daemon.Files.{
  File, missing, stored, Files, Disk, read_state, remove_metadata, write_metadata, read_metadata,
}
use caterm.Daemon.Lifecycle.{open_daemon, close_daemon, remove_socket}

-- What comes in: a request with the answers of the system while it is handled, a client that comes or
-- goes, the timer, and the signal, which may fail.
pub data Message : Type 0 where
  command : Host → SessionRequest → Message
  attach : SessionRequest → Message
  detach : ℕ → Message
  tick : Poll → Message
  signal : Message
  signal_failed : Text → Message

abbrev pub is_stop : SessionRequest → Bool
is_stop SessionRequest.stop = true
is_stop _ = false

abbrev pub Looped : Type 0
Looped = Outcome (Unit {0}) × Dispatch.Daemon

-- `?` on the result of a turn, with the rest of the loop.
abbrev pub next_turn :
    {A : Type 0} → Outcome A × Dispatch.Daemon → (Dispatch.Daemon → Looped) → Looped
next_turn (ok a, d) later = later d
next_turn (err message, d) later = (err message, d)
next_turn (panic, d) later = (panic, d)

-- `if should_stop { break; }`
abbrev pub unless : Bool → (Dispatch.Daemon → Looped) → Dispatch.Daemon → Looped
unless true later d = (ok tt, d)
unless false later d = later d

-- The loop, which also ends when no sender is left.
unfoldable pub loop : List Message → Dispatch.Daemon → Looped
loop [] d = (ok tt, d)
loop (command host request ∷ messages) d =
    next_turn (run_command host request d) (unless (is_stop request) (loop messages))
loop (attach request ∷ messages) d = loop messages (run_attach request d).1
loop (detach subscriber_id ∷ messages) d = loop messages (run_detach subscriber_id d)
loop (tick poll ∷ messages) d = next_turn (run_tick poll d) (loop messages)
loop (signal ∷ messages) d = (ok tt, d)
loop (signal_failed message ∷ messages) d = (err message, d)

abbrev pub written : Option ServerSnapshot → File ServerSnapshot → File ServerSnapshot
written none old = old
written (some file) old = stored file

-- What `run` leaves: its result, its server and its files.
pub record Left : Type 0 where
  pub result : Outcome (Unit {0})
  pub server : Server
  pub files : Files

-- `print_server_banner(..).await?` in front of the loop, with the message of its error if it fails.
abbrev pub greeted : Option Text → (Dispatch.Daemon → Looped) → Dispatch.Daemon → Looped
greeted none later d = later d
greeted (some message) later d = (err message, d)

-- What the system answers: about the files, while the daemon starts, to the banner, and while it ends.
pub record System : Type 0 where
  pub disk : Disk
  pub starting : Host
  pub banner : Option Text
  pub ending : Host
  pub pid : ℕ

module _ (system : System) (socket_path : Text) where
  -- The end of `run`, behind the loop.
  abbrev pub end : Looped → Files → Left
  end (ok u, d) f = record {
    result = ok tt;
    server = shutdown_all system.ending d.server;
    files =
        close_daemon system.disk socket_path (record f { state = written d.state_file f.state });
  }
  end (r, d) f = record {
    result = r;
    server = d.server;
    files = record f { state = written d.state_file f.state };
  }

  abbrev pub enter : List Message → Server → Outcome Dispatch.Daemon → Files → Left
  enter messages s (ok d) f = end (greeted system.banner (loop messages) d) f
  enter messages s (err message) f = record { result = err message; server = s; files = f }
  enter messages s panic f = record { result = panic; server = s; files = f }

  abbrev pub start : List Message → Server → Outcome (Option ServerSnapshot) → Files → Left
  start messages s (ok file) f = enter messages s (start_server system.starting file s) f
  start messages s (err message) f = record { result = err message; server = s; files = f }
  start messages s panic f = record { result = panic; server = s; files = f }

  abbrev pub open_and_start : List Message → Server → Outcome (Unit {0}) × Files → Left
  open_and_start messages s (ok u, f) = start messages s (read_state system.disk socket_path f).0 f
  open_and_start messages s (err message, f) = record {
    result = err message;
    server = s;
    files = f;
  }
  open_and_start messages s (panic, f) = record { result = panic; server = s; files = f }

  unfoldable pub run : List Message → Server → Files → Left
  unfolding loop
  run messages s f = open_and_start messages s (open_daemon system.disk socket_path system.pid f)
