-- ===== src/Daemon/Run/Empty.antt =====
-- What an orderly end leaves of the sessions.
use caterm.Prelude.{
  ◌∙◌, ℕ, Bool, true, false, Option, none, some, List, [], ◌∷◌, ◌≡◌, refl, ap, arith,
}
use caterm.Text.{Text}
use caterm.Outcome.{Outcome, ok, err, panic, Answer, done, failed, and_then, from_answer, ◌>>=◌}
use caterm.Pty.{Host}
use caterm.Snapshot.{ServerSnapshot}
use caterm.Server.State.{ShellConfig, new_server, snapshot}
use caterm.Server.Dispatch
use caterm.Server.Dispatch.{run_command, run_attach, run_detach, run_tick}
use caterm.Server.Dispatch.Run.{
  commanded, attached, detached, ticked, Step-ServerOk, new_server-ServerOk,
}
use caterm.Server.Restore.{start_server, restore_state}
use caterm.Server.Restore.Laws.{shutdown_all-empty}
use caterm.Server.Valid.{ServerOk, HasRoom}
use caterm.Daemon.Files.{
  missing, Files, Disk, read_state, read_metadata, remove_metadata, write_metadata,
}
use caterm.Daemon.Lifecycle.{close_daemon, open_daemon, cleanup_stale_socket, remove_socket}
use caterm.Daemon.Run.{
  Message, command, attach, detach, tick, signal, signal_failed, System, Looped, next_turn, unless,
  is_stop, greeted, written, Left, loop, end, enter, start, open_and_start, run,
}

-- The state behind a message that the loop takes.
abbrev pub after : Message → Dispatch.Daemon → Dispatch.Daemon
after (command host request) d = (run_command host request d).1
after (attach request) d = (run_attach request d).1
after (detach subscriber_id) d = run_detach subscriber_id d
after (tick poll) d = (run_tick poll d).1
after signal d = d
after (signal_failed message) d = d

-- There is room in the counters before and behind each message.
abbrev pub Roomy : List Message → Dispatch.Daemon → Type 0
Roomy [] d = HasRoom d.server
Roomy (message ∷ messages) d = HasRoom d.server × Roomy messages (after message d)

Roomy-HasRoom :
    (messages : List Message) (d : Dispatch.Daemon) → Roomy messages d → HasRoom d.server
Roomy-HasRoom [] d room = room
Roomy-HasRoom (message ∷ messages) d room = room.0

abbrev Good : Looped → Type 0
Good (r, d) = ServerOk d.server × HasRoom d.server

next_turn-Good :
    {A : Type 0} (q : Outcome A × Dispatch.Daemon) (later : Dispatch.Daemon → Looped)
    → (next_turn q later).0 ≡ ok tt
    → ((later q.1).0 ≡ ok tt → Good (later q.1))
    → Good (next_turn q later)
next_turn-Good (ok a, d) later e rest = rest e
next_turn-Good (err message, d) later e rest = absurd (cc)
next_turn-Good (panic, d) later e rest = absurd (cc)

unless-Good :
    (stops : Bool) (later : Dispatch.Daemon → Looped) (d : Dispatch.Daemon)
    → ServerOk d.server
    → HasRoom d.server
    → ((later d).0 ≡ ok tt → Good (later d))
    → (unless stops later d).0 ≡ ok tt
    → Good (unless stops later d)
unless-Good true later d valid room rest e = (valid, room)
unless-Good false later d valid room rest e = rest e

loop-Good :
    (messages : List Message) (d : Dispatch.Daemon)
    → Roomy messages d
    → ServerOk d.server
    → (loop messages d).0 ≡ ok tt
    → Good (loop messages d)
unfolding loop
loop-Good [] d room valid e = (valid, room)
loop-Good (command host request ∷ messages) d room valid e =
    let valid' = Step-ServerOk d _ room.0 valid (commanded host request) in
    let room' = Roomy-HasRoom messages (run_command host request d).1 room.1 in
    next_turn-Good (run_command host request d) (unless (is_stop request) (loop messages)) e (
      unless-Good (is_stop request) (loop messages) (run_command host request d).1 valid' room'
        (loop-Good messages (run_command host request d).1 room.1 valid'))
loop-Good (attach request ∷ messages) d room valid e =
    loop-Good messages (run_attach request d).1 room.1
      (Step-ServerOk d _ room.0 valid (attached request)) e
loop-Good (detach subscriber_id ∷ messages) d room valid e =
    loop-Good messages (run_detach subscriber_id d) room.1
      (Step-ServerOk d _ room.0 valid (detached subscriber_id)) e
loop-Good (tick poll ∷ messages) d room valid e =
    next_turn-Good (run_tick poll d) (loop messages) e
      (loop-Good messages (run_tick poll d).1 room.1 (Step-ServerOk d _ room.0 valid (ticked poll)))
loop-Good (signal ∷ messages) d room valid e = (valid, room.0)
loop-Good (signal_failed message ∷ messages) d room valid e = absurd (cc)

-- How a daemon begins that has no saved state.
abbrev pub first_daemon : ShellConfig → Dispatch.Daemon
first_daemon config = record {
  server = new_server config;
  state_file = some (snapshot (new_server config));
}

-- A run whose loop has come to `o` has ended in order: no session is left in the map of the server,
-- and the state file holds what the loop has saved last.
abbrev pub Ended : Looped → Left → Type 0
Ended o left =
    (d : Dispatch.Daemon) × (o ≡ (ok tt, d))
    × (left.server.sessions ≡ [])
    × (left.files.state ≡ written d.state_file missing)

close_daemon-state :
    (disk : Disk) (path : Text) (f : Files) → (close_daemon disk path f).state ≡ f.state
unfolding close_daemon remove_metadata remove_socket ◌>>=◌
close_daemon-state disk path f = ground arith

module _ (system : System) (path : Text) (messages : List Message) (config : ShellConfig)
    (room : Roomy messages (first_daemon config)) where
  end-Ended :
      (o : Looped) (f : Files)
      → f.state ≡ missing
      → (o.0 ≡ ok tt → Good o)
      → (end system path o f).result ≡ ok tt
      → Ended o (end system path o f)
  end-Ended (ok u, d) f absent good e =
      let (valid, fits) = good refl in
      (
        d,
        refl,
        shutdown_all-empty system.ending d.server valid (omega (arith, fits.sessions)),
        close_daemon-state system.disk path _ ∙ ap (written d.state_file) absent,
      )
  end-Ended (err message, d) f absent good e = absurd (cc)
  end-Ended (panic, d) f absent good e = absurd (cc)

  greeted-Ended :
      (banner : Option Text) (f : Files)
      → f.state ≡ missing
      → let o = greeted banner (loop messages) (first_daemon config) in
        (end system path o f).result ≡ ok tt
        → Ended (loop messages (first_daemon config)) (end system path o f)
  greeted-Ended none f absent e =
      end-Ended (loop messages (first_daemon config)) f absent
        (loop-Good messages (first_daemon config) room (new_server-ServerOk config)) e
  greeted-Ended (some message) f absent e = absurd (cc)

  enter-Ended :
      (saved : Answer (Unit {0})) (f : Files)
      → f.state ≡ missing
      → let started = and_then (from_answer saved) (λ u. ok (first_daemon config)) in
        let left = enter system path messages (new_server config) started f in
        left.result ≡ ok tt → Ended (loop messages (first_daemon config)) left
  enter-Ended (done u) f absent e = greeted-Ended system.banner f absent e
  enter-Ended (failed message) f absent e = absurd (cc)

  start-Ended :
      (host : Host) (f : Files)
      → f.state ≡ missing
      → let started = start_server host none (new_server config) in
        let left = enter system path messages (new_server config) started f in
        left.result ≡ ok tt → Ended (loop messages (first_daemon config)) left
  unfolding start_server restore_state
  start-Ended host f absent e = enter-Ended host.save f absent e

  read-Ended :
      (reads : Outcome (Option ServerSnapshot)) (f : Files)
      → f.state ≡ missing
      → reads ≡ ok none
      → (start system path messages (new_server config) reads f).result ≡ ok tt
      → Ended
          (loop messages (first_daemon config))
          (start system path messages (new_server config) reads f)
  read-Ended reads f absent fresh e =
      rw fresh (start-Ended system.starting f absent (rw fresh at e))

-- Opening the daemon does not make a state file, and where there is none nothing is read.
read_state-missing :
    (disk : Disk) (path : Text) (pid : ℕ) (f f' : Files)
    → f.state ≡ missing
    → open_daemon disk path pid f ≡ (ok tt, f')
    → ((read_state disk path f').0 ≡ ok none) × (f'.state ≡ missing)
unfolding open_daemon cleanup_stale_socket read_metadata remove_metadata remove_socket
    write_metadata read_state ◌>>=◌
read_state-missing disk path pid f f' absent opens = ground arith

open_and_start-Ended :
    (system : System) (path : Text) (messages : List Message) (config : ShellConfig)
    (q : Outcome (Unit {0}) × Files)
    → Roomy messages (first_daemon config)
    → (q.0 ≡ ok tt → ((read_state system.disk path q.1).0 ≡ ok none) × (q.1.state ≡ missing))
    → (open_and_start system path messages (new_server config) q).result ≡ ok tt
    → Ended
        (loop messages (first_daemon config))
        (open_and_start system path messages (new_server config) q)
open_and_start-Ended system path messages config (ok u, f) room reads e =
    let (none_read, absent) = reads refl in
    read-Ended system path messages config room (read_state system.disk path f).0 f absent none_read
      e
open_and_start-Ended system path messages config (err message, f) room reads e = absurd (cc)
open_and_start-Ended system path messages config (panic, f) room reads e = absurd (cc)

-- A run that begins without a state file and ends in order has ended its loop in order and has then
-- deleted every session from the map of its server, whatever has come in and whatever the system
-- answers, as long as there is room in the counters before and behind each message; the deletions are
-- not saved: the state file holds what the loop has saved last.
pub run-Ended :
    (system : System) (path : Text) (messages : List Message) (config : ShellConfig) (f : Files)
    → f.state ≡ missing
    → Roomy messages (first_daemon config)
    → (run system path messages (new_server config) f).result ≡ ok tt
    → Ended (loop messages (first_daemon config)) (run system path messages (new_server config) f)
unfolding run
run-Ended system path messages config f absent room e =
    open_and_start-Ended system path messages config (open_daemon system.disk path system.pid f)
      room
      (λ opens.
        read_state-missing system.disk path system.pid f
          (open_daemon system.disk path system.pid f).1 absent
          (ap (λ r. (r, (open_daemon system.disk path system.pid f).1)) opens))
      e
