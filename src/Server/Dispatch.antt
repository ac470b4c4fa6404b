-- ===== src/Server/Dispatch.antt =====
-- The request loop: one request at a time, with the events that have come up in between.
pub mod Sound
pub mod Invariant
pub mod Run
use caterm.Prelude.{
  ℕ, Bool, true, false, Option, none, some, List, [], ◌∷◌, ◌++◌, is_empty, if◌then◌else◌,
}
use caterm.Text.{Text, codes}
use caterm.Text.Decimal.{to_string}
use caterm.Outcome.{Outcome, ok, err, panic, done, failed, Method, lift, gets, pure, ◌>>=◌, ◌>>◌}
use caterm.BTree.{BTree, remove, keys}
use caterm.Snapshot.{ServerSnapshot}
use caterm.Pty.{Host, Poll}
use caterm.Window.{horizontal, vertical}
use caterm.Event.{ServerEvent}
use caterm.Command.{CommandResult, CommandResponse, success, failure}
use caterm.Request
use caterm.Request.{SessionRequest}
use caterm.Server.State.{Server, Handler, CommandOutcome, snapshot}
use caterm.Server.Client.{broadcast_events, attach_client}
use caterm.Server.Runtime.{collect_runtime_events}
use caterm.Server.Create.{create_session, create_window, create_pane, split_pane}
use caterm.Server.Select.{
  select_window, select_pane, rename_session, rename_window, rename_pane, resize_pane,
}
use caterm.Server.Delete.{delete_session, delete_window, delete_pane, send_input}

abbrev pub answer : CommandResult → Handler CommandOutcome
answer result = pure (record { result = result; broadcast_events = [] })

-- The request's own method.
unfoldable pub perform : Host → SessionRequest → Handler CommandOutcome
perform host (SessionRequest.attach session window pane) =
    lift (err (codes "attach requires a streaming local connection"))
perform host (SessionRequest.create_session name) = create_session host name
perform host (SessionRequest.create_window session name) = create_window host session name
perform host (SessionRequest.create_pane session window name) = create_pane host session window name
perform host (SessionRequest.split_horizontal session window name) =
    split_pane host session window name horizontal
perform host (SessionRequest.split_vertical session window name) =
    split_pane host session window name vertical
perform host (SessionRequest.select_window session target) = select_window session target
perform host (SessionRequest.select_pane session window target) = select_pane session window target
perform host (SessionRequest.rename_session target name) = rename_session target name
perform host (SessionRequest.rename_window session target name) = rename_window session target name
perform host (SessionRequest.rename_pane session window target name) =
    rename_pane session window target name
perform host (SessionRequest.resize_pane session window target delta) =
    resize_pane session window target delta
perform host (SessionRequest.delete_session target) = delete_session host target
perform host (SessionRequest.delete_window session target) = delete_window host session target
perform host (SessionRequest.delete_pane session window target) =
    delete_pane host session window target
perform host (SessionRequest.send_input session window pane input) =
    send_input host session window pane input
perform host SessionRequest.list =
    gets (λ s. record { result = CommandResult.session_list (snapshot s); broadcast_events = [] })
perform host SessionRequest.stop = answer CommandResult.stopped
perform host SessionRequest.ping = answer CommandResult.pong

-- `outcome.broadcast_events.splice(0..0, runtime_events)`
abbrev pub splice : List ServerEvent → CommandOutcome → CommandOutcome
splice events outcome = record outcome { broadcast_events = events ++ outcome.broadcast_events }

-- The events collected first are lost when the request fails.
unfoldable pub handle_request : Host → SessionRequest → Handler CommandOutcome
handle_request host request = do
  runtime_events ← collect_runtime_events (host.poll 0)
  outcome ← perform host request
  pure (splice runtime_events outcome)

-- The server and its state file.
pub record Daemon : Type 0 where
  pub server : Server
  pub state_file : Option ServerSnapshot

-- The answer to a command. The state is saved before anything is sent; if that fails, `run` ends.
abbrev pub conclude :
    Host
    → Outcome CommandOutcome
    → Server
    → Option ServerSnapshot
    → Outcome CommandResponse × Daemon
conclude host (err message) s file =
    (ok (failure message), record { server = s; state_file = file })
conclude host panic s file = (panic, record { server = s; state_file = file })
conclude host (ok outcome) s file = elim host.save [
  | done _ ↦ (
    ok (success outcome.result),
    record { server = broadcast_events outcome.broadcast_events s; state_file = some (snapshot s) },
  )
  | failed message ↦ (err message, record { server = s; state_file = file })
]

-- The branch `RequestKind::Command` of the loop in `run`.
unfoldable pub run_command : Host → SessionRequest → Method Daemon CommandResponse
run_command host request d =
    let (outcome, s) = handle_request host request d.server in conclude host outcome s d.state_file

abbrev pub in_daemon : {A : Type 0} → Handler A → Method Daemon A
in_daemon m d = let (r, s) = m d.server in (r, record d { server = s })

-- The branch `RequestKind::Attach`: an error goes to the client, and the loop goes on.
unfoldable pub run_attach : SessionRequest → Method Daemon ℕ
run_attach request = in_daemon (attach_client request)

-- The branch `RequestKind::Detach`.
unfoldable pub run_detach : ℕ → Daemon → Daemon
run_detach subscriber_id d = record d {
  server = record d.server { subscribers = remove subscriber_id d.server.subscribers };
}

-- The branch of the timer.
unfoldable pub run_tick : Poll → Method Daemon (Unit {0})
run_tick poll = do
  events ← in_daemon (collect_runtime_events poll)
  in_daemon (λ s. (ok tt, if is_empty events then s else broadcast_events events s))

-- `delete_session(&id.to_string())` for each id, with the results dropped.
unfoldable pub delete_all : Host → List ℕ → Server → Server
delete_all host [] s = s
delete_all host (id ∷ ids) s = delete_all host ids (delete_session host (to_string id) s).1
