-- ===== src/Server/Dispatch/Run.antt =====
-- Runs of the daemon: the branches of the loop in `run`, in any order.
use caterm.Prelude.{ℕ, Option, none, ◌≡◌, refl, List, Bool-cases, inl, inr, is_empty, if◌then◌else◌}
use caterm.Outcome.{Outcome, Answer, continue, ok, err, panic, done, failed, ◌>>=◌}
use caterm.Roster.{Roster-empty}
use caterm.Pty.{Host, Poll}
use caterm.Request.{SessionRequest}
use caterm.Event.{ServerEvent}
use caterm.Snapshot.{ServerSnapshot}
use caterm.Server.State.{Server, ShellConfig, new_server, CommandOutcome}
use caterm.Server.Resolve.{resolve_attach_filter}
use caterm.Server.Client.{broadcast_events, attach_client}
use caterm.Server.Runtime.{collect_runtime_events}
use caterm.Server.Dispatch.{
  Daemon, run_command, run_attach, run_detach, run_tick, handle_request, conclude, in_daemon,
}
use caterm.Server.Dispatch.Invariant.{
  handle_request-ServerOk, broadcast_events-ServerOk, collect-ServerOk, reads-ServerOk,
}
use caterm.Server.Valid.{ServerOk, HasRoom}

-- One turn of the loop: a command, a client that comes or goes, or the timer.
pub data Step (d : Daemon) : Daemon → Type 0 where
  commanded : (host : Host) (request : SessionRequest) → Step d (run_command host request d).1
  attached : (request : SessionRequest) → Step d (run_attach request d).1
  detached : (subscriber_id : ℕ) → Step d (run_detach subscriber_id d)
  ticked : (poll : Poll) → Step d (run_tick poll d).1

-- Turns from `d` on, each from a state whose counters do not wrap.
pub data Run (d : Daemon) : Daemon → Type 0 where
  start : Run d d
  turn : {d' d'' : Daemon} → Run d d' → HasRoom d'.server → Step d' d'' → Run d d''

saved-ServerOk :
    (host : Host) (outcome : CommandOutcome) (s : Server) (file : Option ServerSnapshot)
    (saved : Answer (Unit {0}))
    → host.save ≡ saved
    → ServerOk s
    → ServerOk (conclude host (ok outcome) s file).1.server
saved-ServerOk host outcome s file (done u) e valid =
    rw e (broadcast_events-ServerOk s outcome.broadcast_events valid)
saved-ServerOk host outcome s file (failed message) e valid = rw e valid

conclude-ServerOk :
    (host : Host) (r : Outcome CommandOutcome) (s : Server) (file : Option ServerSnapshot)
    → ServerOk s
    → ServerOk (conclude host r s file).1.server
conclude-ServerOk host (err message) s file valid = valid
conclude-ServerOk host panic s file valid = valid
conclude-ServerOk host (ok outcome) s file valid =
    saved-ServerOk host outcome s file host.save refl valid

attach_client-ServerOk :
    (request : SessionRequest) (s : Server) → ServerOk s → ServerOk (attach_client request s).1
unfolding attach_client ◌>>=◌
attach_client-ServerOk request s valid =
    reads-ServerOk s (λ t. resolve_attach_filter t request) _ valid
      (λ filter _. record { sessions = valid.sessions })

run_tick-ServerOk :
    (poll : Poll) (d : Daemon) → ServerOk d.server → ServerOk (run_tick poll d).1.server
unfolding run_tick ◌>>=◌
run_tick-ServerOk poll d valid =
    ticked_from (collect_runtime_events poll d.server).0 (collect_runtime_events poll d.server).1
      (collect-ServerOk poll d.server valid)
  where
    ticked_from :
        (r : Outcome (List ServerEvent)) (s : Server)
        → ServerOk s
        → ServerOk
            (continue r
              (λ events.
                in_daemon (λ t. (ok tt, if is_empty events then t else broadcast_events events t)))
              (record d { server = s })).1.server
    ticked_from (ok events) s valid' = elim (Bool-cases (is_empty events)) [
      | inl quiet ↦ rw quiet valid'
      | inr busy ↦ rw busy (broadcast_events-ServerOk s events valid')
    ]
    ticked_from (err message) s valid' = valid'
    ticked_from panic s valid' = valid'

pub Step-ServerOk :
    (d d' : Daemon) → HasRoom d.server → ServerOk d.server → Step d d' → ServerOk d'.server
unfolding run_command run_attach run_detach
Step-ServerOk d d' room valid (commanded host request) =
    conclude-ServerOk host (handle_request host request d.server).0
      (handle_request host request d.server).1 d.state_file
      (handle_request-ServerOk host request d.server valid room)
Step-ServerOk d d' room valid (attached request) = attach_client-ServerOk request d.server valid
Step-ServerOk d d' room valid (detached subscriber_id) = record { sessions = valid.sessions }
Step-ServerOk d d' room valid (ticked poll) = run_tick-ServerOk poll d valid

abbrev pub new_daemon : ShellConfig → Daemon
new_daemon config = record { server = new_server config; state_file = none }

pub new_server-ServerOk : (config : ShellConfig) → ServerOk (new_server config)
unfolding new_server
new_server-ServerOk config = record { sessions = Roster-empty _ _ _ 1 }

-- Every state that a daemon without a saved state reaches from its start, by commands, clients that come and go and turns
-- of the timer in any order and with any answers of the system, is valid, as long as each turn
-- begins with counters that do not wrap and windows below 65535 panes.
Run-ServerOk : (config : ShellConfig) (d : Daemon) → Run (new_daemon config) d → ServerOk d.server
Run-ServerOk config d start = new_server-ServerOk config
Run-ServerOk config d (turn run room step) = Step-ServerOk _ d room (Run-ServerOk config _ run) step
