-- ===== src/Examples/Restarts.antt =====
-- A daemon that is started again on what it has saved, a run of it, and a session that is renamed.
use caterm.Prelude.{
  none, true, ℕ, ◌==◌, if◌then◌else◌, ◌≡◌, refl, false, some, List, [], ◌∷◌, arith,
}
use caterm.Text.{Text, codes, text_eq}
use caterm.Text.Decimal.{parse_u64}
use caterm.Server.Select.{rename_session}
use caterm.Server.Resolve.{resolve_session_id}
use caterm.Outcome.{Outcome, ok, err, panic, ◌>>=◌}
use caterm.Request.{SessionRequest}
use caterm.Server.State.{Server, CommandOutcome, session_at, snapshot, new_server, put_session}
use caterm.Server.Dispatch.{Daemon, run_command, handle_request, perform}
use caterm.Server.Dispatch.Run.{commanded, new_daemon}
use caterm.Server.Restore.{
  start_server, restore_pane, restore_panes, restore_sessions, restore_windows,
}
use caterm.Server.Valid.{ServerOk, HasRoom}
use caterm.Server.Dispatch
use caterm.Daemon.Run.Empty
use caterm.Daemon.Run.Empty.{after, Ended, run-Ended}
use caterm.Server.Lives.{born, turn, restarted, FileFits, Life-ServerOk}
use caterm.Examples.Samples.{host, config, server, server-ServerOk, new_server-HasRoom}
use caterm.BTree.{values, insert, get}
use caterm.Pty.{start_output_pump, spawn, try_wait}
use caterm.Server.Create.{spawn_pane, report_session, create_session, open_pane}
use caterm.Server.Runtime.{
  collect_sessions, collect_runtime_events, collect_pane, collect_panes, collect_windows,
  receive_chunks,
}
use caterm.Command.{CommandResult}
use caterm.Server.Directory.{Change, rename, request_of, Chosen, new_name, name_of, perform-Chosen}
use caterm.Snapshot.{ServerSnapshot}
use caterm.Daemon.Files.{Files, Disk, missing, stored, File, read_state}
use caterm.Daemon.Lifecycle.{pings, already_running, open_daemon, close_daemon}
use caterm.Daemon.Laws.{opened, cleared}
use caterm.Daemon.Start.{run_start, refuse, server_running, run_start-open_daemon}
use caterm.Local.{unreachable}
use caterm.Daemon.Run.{System, Message, Left, command, loop, run}
use caterm.Daemon.Run.Laws.{IsFree, run-IsFree}
use caterm.Pane.{take_output_chunk}
use caterm.Server.Client.{broadcast_events}

abbrev create_work : SessionRequest
create_work = SessionRequest.create_session (some (codes "work"))

abbrev first_daemon : Daemon
first_daemon = (run_command host create_work (new_daemon config)).1

abbrev or_else : Outcome Daemon → Daemon → Daemon
or_else (ok d) other = d
or_else (err message) other = other
or_else panic other = other

abbrev second_daemon : Daemon
second_daemon = or_else (start_server host first_daemon.state_file (new_server config)) first_daemon

starts :
    (start_server host first_daemon.state_file (new_server config) ≡ ok second_daemon)
    × FileFits first_daemon.state_file
unfolding get insert values caterm.Pane.snapshot spawn start_output_pump create_session open_pane
    report_session spawn_pane handle_request perform restore_pane restore_panes restore_sessions
    restore_windows collect_runtime_events collect_sessions put_session snapshot
    caterm.Session.snapshot caterm.Window.snapshot new_server run_command start_server ◌>>=◌
starts = (refl, (omega arith, tt))

Life-ServerOk_example : ServerOk second_daemon.server
Life-ServerOk_example = Life-ServerOk config second_daemon (
    restarted host (λ id. id) (turn born new_server-HasRoom (commanded host create_work))
      (λ id shell cols rows. refl) starts.1 starts.0)

abbrev disk : Disk
disk = record {
  read_fails = false;
  write_fails = false;
  write_tears = true;
  remove_fails = false;
  remove_socket_fails = false;
  create_fails = false;
  bind_fails = false;
  pid_is_alive = λ pid. false;
}

abbrev system : System
system = record { disk = disk; starting = host; banner = none; ending = host; pid = 9 }

abbrev sock : Text
sock = codes "/tmp/caterm.sock"

abbrev nothing : Files
nothing = record { socket = false; metadata = missing; state = missing }

abbrev orders : List Message
orders = command host create_work ∷ command host SessionRequest.stop ∷ []

abbrev ended : Left
ended = run system sock orders (new_server config) nothing

abbrev saved_of : File ServerSnapshot → ServerSnapshot
saved_of (stored file) = file
saved_of _ = snapshot (new_server config)

abbrev created : Dispatch.Daemon
created = after (command host create_work) (Empty.first_daemon config)

abbrev stopped : Dispatch.Daemon
stopped = after (command host SessionRequest.stop) created

-- What the run does, with room before and behind the request.
ends :
    (ended.result ≡ ok tt)
    × (ended.files.state ≡ stored (saved_of ended.files.state))
    × HasRoom created.server
    × HasRoom stopped.server
unfolding close_daemon caterm.Pane.snapshot take_output_chunk try_wait broadcast_events collect_pane
    collect_panes collect_windows receive_chunks caterm.Session.snapshot caterm.Window.snapshot
    collect_runtime_events collect_sessions create_session get handle_request insert new_server
    open_daemon open_pane perform put_session read_state report_session restore_pane restore_panes
    restore_sessions restore_windows run run_command snapshot spawn spawn_pane start_output_pump
    start_server values ◌>>=◌
ends = (
  refl,
  refl,
  record {
    sessions = omega arith;
    windows = omega arith;
    panes = omega arith;
    few = λ sid wid window e. ground arith;
  },
  record {
    sessions = omega arith;
    windows = omega arith;
    panes = omega arith;
    few = λ sid wid window e. ground arith;
  },
)

run-IsFree_example :
    IsFree ended.files
    × (open_daemon disk sock 11 ended.files ≡ (ok tt, opened sock 11 ended.files))
    × ((read_state disk sock (opened sock 11 ended.files)).0
        ≡ ok (some (saved_of ended.files.state)))
run-IsFree_example =
    run-IsFree system sock orders (new_server config) nothing 11 (saved_of ended.files.state) refl
      refl ends.0 ends.1

run-Ended_example : Ended (loop orders (Empty.first_daemon config)) ended
run-Ended_example =
    run-Ended system sock orders config nothing refl (new_server-HasRoom, (ends.2, ends.3)) ends.0

abbrev in_use : Files
in_use = opened sock 9 nothing

opens : open_daemon disk sock 9 nothing ≡ (ok tt, in_use)
unfolding open_daemon ◌>>=◌
opens = refl

run_start-open_daemon_example :
    let anew = run system sock orders (new_server config) (cleared nothing) in
    (run_start config sock unreachable system orders in_use ≡ (
      if pings sock unreachable
      then refuse config sock unreachable system (server_running sock) in_use
      else if disk.pid_is_alive 9
      then refuse config sock unreachable system (already_running sock 9) in_use
      else anew))
    × (run_start config sock unreachable system orders (close_daemon disk sock in_use) ≡ anew)
run_start-open_daemon_example =
    run_start-open_daemon config sock unreachable system orders 9 nothing in_use opens refl refl

abbrev play : Change
play = rename (codes "work") (codes "play")

abbrev outcome_of : Outcome CommandOutcome → CommandOutcome
outcome_of (ok o) = o
outcome_of _ = record { result = CommandResult.pong; broadcast_events = [] }

abbrev played : Outcome CommandOutcome × Server
played = perform host (request_of play) server

plays : played ≡ (ok (outcome_of played.0), played.1)
unfolding perform rename_session resolve_session_id parse_u64 values text_eq session_at get ◌>>=◌
plays = refl

perform-Chosen_example :
    (id : ℕ) × Chosen play server id
    × ((j : ℕ) → name_of played.1 j ≡ (if id == j then new_name play server else name_of server j))
perform-Chosen_example =
    perform-Chosen host play server played.1 (outcome_of played.0) server-ServerOk plays
