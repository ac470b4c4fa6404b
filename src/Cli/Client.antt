-- ===== src/Cli/Client.antt =====
-- What the client commands print and how they end (caterm/src/main.rs). Standard output is the text
-- written so far.
pub mod Laws
use caterm.Prelude.{
  ℕ, Bool, true, false, not, Option, none, some, List, [], ◌∷◌, ◌++◌, is_empty, ltb, ◌==◌,
  if◌then◌else◌,
}
use caterm.Text.{Text, codes}
use caterm.Text.Decimal.{to_string}
use caterm.Outcome.{Outcome, ok, err, panic}
use caterm.Event.{ServerEvent, EventEnvelope, protocol_version}
use caterm.Command.{CommandResponse}
use caterm.Local.{
  Line, closed, broken, decoded, Dial, unreachable, unwritten, answered, send_client_request,
  cannot_connect, version_mismatch,
}
use caterm.Daemon.Lifecycle.{DaemonStatus, running, stale, stopped}
use caterm.Cli.View.{format}
use caterm.Cli.Render.{failure_of, render_command_response, render_event}

-- `write_all` of a text and a line feed.
abbrev pub print_line : Text → Text → Text
print_line line out = out ++ (line ++ codes "\n")

abbrev pub print_some : Text → Text → Text
print_some line out = if is_empty line then out else print_line line out

abbrev pub conclude : CommandResponse → Outcome (Unit {0})
conclude response = if response.ok then ok tt else err (failure_of response.error)

abbrev pub print_response : Outcome CommandResponse → Text → Outcome (Unit {0}) × Text
print_response (err message) out = (err message, out)
print_response panic out = (panic, out)
print_response (ok response) out =
    (conclude response, print_some (render_command_response response) out)

unfoldable pub run_client_command : Text → Dial → Text → Outcome (Unit {0}) × Text
unfolding render_command_response
run_client_command socket dial out = print_response (send_client_request socket dial) out

unfoldable pub status_message : Text → DaemonStatus → Text
status_message socket (running (some pid)) = format (
    codes "Caterm daemon is running on " ∷ socket ∷ codes " (pid " ∷ to_string pid ∷ codes ")" ∷ [])
status_message socket (running none) = format (codes "Caterm daemon is running on " ∷ socket ∷ [])
status_message socket (stale pid metadata_path socket_exists) =
    if ltb 0 pid
    then format (
        codes "Caterm daemon is not responding. Stale pid "
        ∷ to_string pid
        ∷ codes " recorded in "
        ∷ metadata_path
        ∷ codes " for socket "
        ∷ socket
        ∷ (if socket_exists then [] else codes " (socket already missing)")
        ∷ [])
    else format
        (codes "Caterm daemon is not responding, but a stale socket exists at " ∷ socket ∷ [])
status_message socket stopped =
    format (codes "Caterm daemon is not running. Expected socket: " ∷ socket ∷ [])

unfoldable pub run_status_command : Text → Outcome DaemonStatus → Text → Outcome (Unit {0}) × Text
unfolding status_message
run_status_command socket (ok status) out = (ok tt, print_line (status_message socket status) out)
run_status_command socket (err message) out = (err message, out)
run_status_command socket panic out = (panic, out)

-- The arguments of the process that `run_daemonized_start` spawns, behind the path of the program.
unfoldable pub daemonized_args : Text → List Text
daemonized_args socket = codes "start" ∷ codes "--foreground" ∷ codes "--socket" ∷ socket ∷ []

-- The first event, if it is an error.
abbrev pub first_error : Bool → ServerEvent → Option Text
first_error true event = none
first_error false (ServerEvent.error code message) = some message
first_error false _ = none

abbrev pub show_event : ServerEvent → Text → Text
show_event event out = print_some (render_event event) out

-- The loop over the lines; the flag is `saw_event`.
unfoldable pub attach_loop : Bool → List (Line EventEnvelope) → Text → Outcome (Unit {0}) × Text
unfolding render_event
attach_loop saw_event [] out = (ok tt, out)
attach_loop saw_event (closed ∷ lines) out = (ok tt, out)
attach_loop saw_event (broken message ∷ lines) out = (err message, out)
attach_loop saw_event (decoded e ∷ lines) out = elim (e.version == protocol_version) [
  | false ↦ (err (version_mismatch e.version), out)
  | true ↦ elim (first_error saw_event e.event) [
    | some message ↦ (err message, out)
    | none ↦ attach_loop true lines (show_event e.event out)
  ]
]

-- What happens on the connection of an attach request.
pub data Stream : Type 0 where
  no_server : Stream
  unsent : Text → Stream
  lines : List (Line EventEnvelope) → Stream

-- `attach_client_stream` and the loop behind it.
unfoldable pub run_attach_command : Text → Stream → Text → Outcome (Unit {0}) × Text
unfolding attach_loop
run_attach_command socket no_server out = (err (cannot_connect socket), out)
run_attach_command socket (unsent message) out = (err message, out)
run_attach_command socket (lines l) out = attach_loop false l out
