-- ===== src/Examples/Relayed.antt =====
-- Requests that a daemon gets over the relay.
use caterm.Prelude.{none, some, List, [], ◌∷◌, ◌≡◌, refl, arith}
use caterm.Text.{codes, text_eq}
use caterm.Text.Decimal.{to_string}
use caterm.Pane.{take_output_chunk}
use caterm.Server.Client.{broadcast_events}
use caterm.Local.{replied}
use caterm.Outcome.{Outcome, ok, err, ◌>>=◌}
use caterm.BTree.{insert, get, values}
use caterm.Request.{SessionRequest}
use caterm.Command.{CommandResponse, failure}
use caterm.Pty.{spawn, start_output_pump, try_wait}
use caterm.Server.State.{put_session, snapshot, new_server}
use caterm.Server.Create.{create_session, open_pane, report_session, spawn_pane}
use caterm.Server.Runtime.{
  collect_runtime_events, collect_sessions, collect_windows, collect_panes, collect_pane,
  receive_chunks,
}
use caterm.Server.Dispatch.{Daemon, handle_request, perform, run_command}
use caterm.Server.Dispatch.Run.{new_daemon}
use caterm.Cli.Client.Laws.{reply_of}
use caterm.Relay.Connection.{
  Serve, run_connection, Replies, nothing_asked, asked, texts, text, answers, run_connection-texts,
}
use caterm.Examples.Samples.{host, config}

-- The loop of the daemon.
abbrev serve : Serve Daemon
serve request d = let (r, d') = run_command host request d in (reply_of r, d')

abbrev response_of : Outcome CommandResponse → CommandResponse
response_of (ok response) = response
response_of _ = failure []

abbrev create : SessionRequest
create = SessionRequest.create_session none

abbrev first : Outcome CommandResponse × Daemon
first = run_command host create (new_daemon config)

abbrev second : Outcome CommandResponse × Daemon
second = run_command host create first.1

abbrev responses : List CommandResponse
responses = response_of first.0 ∷ response_of second.0 ∷ []

-- The daemon replies to both, and the second one gets another session.
replied_both :
    (serve create (new_daemon config) ≡ (replied (response_of first.0), first.1))
    × (serve create first.1 ≡ (replied (response_of second.0), second.1))
unfolding get insert values caterm.Pane.snapshot spawn start_output_pump create_session open_pane
    report_session spawn_pane handle_request perform collect_runtime_events collect_sessions
    put_session snapshot caterm.Session.snapshot caterm.Window.snapshot new_server run_command
    collect_windows collect_panes collect_pane receive_chunks take_output_chunk try_wait text_eq
    to_string broadcast_events ◌>>=◌
replied_both = (refl, refl)

replies : Replies serve (create ∷ create ∷ []) (new_daemon config) responses second.1
replies =
    asked _ _ _ first.1 _ _ _ replied_both.0
      (asked _ _ _ second.1 _ _ _ replied_both.1 (nothing_asked _))

run_connection-texts_example :
    run_connection serve
      (codes "wss://relay.example")
      (some (texts (create ∷ create ∷ []) (text none ∷ [])))
      3
      (new_daemon config)
    ≡ (err (codes "failed to decode relay request"), answers responses, second.1)
run_connection-texts_example =
    run_connection-texts serve (codes "wss://relay.example") (create ∷ create ∷ [])
      (new_daemon config) second.1 responses [] 3 replies (omega arith)
