-- ===== src/Examples/CommandLine.antt =====
-- Command lines, and clients that talk to the daemon of the samples.
use caterm.Prelude.{true, false, none, some, unwrap_or, List, [], ◌∷◌, ◌≡◌, refl, ◌⊎◌, arith}
use caterm.Prelude.Int.{negsuc}
use caterm.Text.{Text, codes}
use caterm.Outcome.{ok, err}
use caterm.Request.{SessionRequest}
use caterm.Event.{ServerEvent}
use caterm.Server.Dispatch.{Daemon, handle_request}
use caterm.Local.{
  Serving, stopped, replied, attached, refused, decoded, answered, handle_local_connection,
}
use caterm.Cli.Parse.{parse, main}
use caterm.Cli.Total.{Accepted, Refused, parse-Accepted}
use caterm.Cli.Write.{IsSendable, Flags, words, command_line, asked}
use caterm.Cli.RoundTrip.{main-command_line, main-help}
use caterm.Cli.Client.{run_client_command}
use caterm.Cli.Client.Laws.{
  first_line, serve_by, shown, run_client_command-run_command, attach_to, show_all, take,
  attach_lem,
}
use caterm.Examples.Samples.{host, server}

abbrev flags : Flags
flags = record { socket_path = some (codes "/tmp/a.sock"); foreground = true; daemonize = false }

abbrev shrink : SessionRequest
shrink = SessionRequest.resize_pane (codes "work") (codes "main") (codes "left") (negsuc 4)

shrink-IsSendable : IsSendable shrink
unfolding IsSendable
shrink-IsSendable = omega arith

abbrev kill : SessionRequest
kill = SessionRequest.delete_session (codes "work")

kill-IsSendable : IsSendable kill
unfolding IsSendable
kill-IsSendable = tt

main-command_line_example :
    main (codes "/tmp/caterm.sock") (command_line flags shrink)
    ≡ ok (asked (unwrap_or flags.socket_path (codes "/tmp/caterm.sock")) shrink)
main-command_line_example =
    main-command_line (codes "/tmp/caterm.sock") flags shrink refl shrink-IsSendable

abbrev both_flags : List Text
both_flags = codes "caterm" ∷ codes "--foreground" ∷ codes "--daemonize" ∷ []

parse-Accepted_example : Accepted (parse both_flags) ⊎ Refused (parse both_flags)
parse-Accepted_example = parse-Accepted both_flags

main-help_example :
    main (codes "/tmp/caterm.sock") (codes "caterm" ∷ codes "--help" ∷ words kill)
    ≡ ok (asked (codes "/tmp/caterm.sock") kill)
main-help_example = main-help (codes "/tmp/caterm.sock") kill kill-IsSendable

abbrev daemon : Daemon
daemon = record { server = server; state_file = none }

abbrev serving : Serving
serving = record {
  command = λ request. stopped;
  attach = λ request. stopped;
  room = 1;
  error = codes "broken pipe";
}

abbrev rename : SessionRequest
rename = SessionRequest.rename_session (codes "work") (codes "play")

run_client_command-run_command_example :
    run_client_command
      (codes "/tmp/a.sock")
      (answered (
        first_line
          (handle_local_connection (serve_by host daemon serving) (decoded rename)).written))
      []
    ≡ shown (handle_request host rename server).0 host.save []
run_client_command-run_command_example =
    run_client_command-run_command host rename daemon serving (codes "/tmp/a.sock") [] refl
      (omega arith)

abbrev watch : SessionRequest
watch = SessionRequest.attach (some (codes "work")) none none

abbrev output : List ServerEvent
output = ServerEvent.pty_output 1 1 1 (codes "ls\n") ∷ ServerEvent.session_deleted 1 ∷ []

attach_lem_example :
    let taken = record serving { attach = λ r. replied (attached 7 output) } in
    let denied = record serving { attach = λ r. replied (refused (codes "no session")) } in
    (attach_to taken watch (codes "/tmp/a.sock") [] ≡ (ok tt, show_all (take 1 output) []))
    × ((handle_local_connection taken (decoded watch)).detached ≡ some 7)
    × (attach_to denied watch (codes "/tmp/a.sock") [] ≡ (err (codes "no session"), []))
attach_lem_example =
    attach_lem serving watch 7 output (codes "no session") (codes "/tmp/a.sock") [] refl refl
      (omega arith)
