-- ===== src/Cli/Client/Laws.antt =====
-- What a client sees of what the daemon does, across the socket.
use caterm.Prelude.{ℕ, zero, suc, ◌≤◌, true, false, none, some, List, [], ◌∷◌, ◌≡◌, refl, arith}
use caterm.Text.{Text, codes}
use caterm.Outcome.{Outcome, ok, err, Answer, done}
use caterm.Pty.{Host}
use caterm.Request.{SessionRequest}
use caterm.Event.{ServerEvent, EventEnvelope, envelope, error_event}
use caterm.Command.{CommandResponse, success, failure}
use caterm.Server.State.{CommandOutcome}
use caterm.Server.Dispatch.{Daemon, handle_request, run_command}
use caterm.Local.{
  Line, closed, broken, decoded, answered, send_client_request, handle_local_connection, Serving,
  Sent, response, event, Reply, dropped, replied, attached, refused, is_attach, write_events,
}
use caterm.Cli.Client.{
  run_client_command, run_attach_command, attach_loop, lines, print_some, first_error, show_event,
}
use caterm.Cli.Render.{render_command_result, render_command_response}

-- The line that `next_line` gives first.
abbrev pub first_line : List Sent → Line CommandResponse
first_line [] = closed
first_line (response r ∷ more) = decoded r
first_line (event e ∷ more) = broken []

-- The loop sends the response, or drops its sender when it ends.
abbrev pub reply_of : Outcome CommandResponse → Reply CommandResponse
reply_of (ok r) = replied r
reply_of _ = dropped

abbrev pub serve_by : Host → Daemon → Serving → Serving
serve_by host d w = record w { command = λ request. reply_of (run_command host request d).0 }

-- What the client shows of a request that has ended like this.
abbrev pub shown : Outcome CommandOutcome → Answer (Unit {0}) → Text → Outcome (Unit {0}) × Text
shown (ok outcome) (done u) out = (ok tt, print_some (render_command_result outcome.result) out)
shown (err message) saved out = (err message, print_some message out)
shown _ _ out = (err (codes "server closed connection without responding"), out)

-- A request other than an attach, sent by a client to a connection that takes a line: the client
-- prints what the request has made when the daemon has handled and saved it, prints the error's
-- message and fails with it when the daemon has refused it, and is told that the daemon has gone when
-- the daemon panics or cannot save.
pub run_client_command-run_command :
    (host : Host) (request : SessionRequest) (d : Daemon) (w : Serving) (socket out : Text)
    → is_attach request ≡ false
    → 1 ≤ w.room
    → run_client_command socket
        (answered
          (first_line (handle_local_connection (serve_by host d w) (decoded request)).written))
        out
      ≡ shown (handle_request host request d.server).0 host.save out
unfolding run_client_command handle_local_connection run_command success failure send_client_request
    render_command_response
run_client_command-run_command host request d w socket out plain room = ground arith

-- The lines that an attached client reads.
abbrev pub received : List Sent → List (Line EventEnvelope)
received [] = []
received (event e ∷ more) = decoded e ∷ received more
received (response r ∷ more) = broken [] ∷ received more

abbrev pub take : ℕ → List ServerEvent → List ServerEvent
take n [] = []
take zero (e ∷ events) = []
take (suc n) (e ∷ events) = e ∷ take n events

abbrev pub show_all : List ServerEvent → Text → Text
show_all [] out = out
show_all (e ∷ events) out = show_all events (show_event e out)

-- The daemon does not begin with an error.
abbrev pub BeginsWell : List ServerEvent → Type 0
BeginsWell [] = Unit
BeginsWell (e ∷ events) = first_error false e ≡ none

attach_loop-seen :
    (room : ℕ) (events : List ServerEvent) (out : Text)
    → attach_loop true (received (write_events room events)) out
      ≡ (ok tt, show_all (take room events) out)
unfolding attach_loop write_events envelope
attach_loop-seen zero [] out = refl
attach_loop-seen zero (e ∷ events) out = refl
attach_loop-seen (suc room) [] out = refl
attach_loop-seen (suc room) (e ∷ events) out = attach_loop-seen room events (show_event e out)

attach_loop-first :
    (room : ℕ) (events : List ServerEvent) (out : Text)
    → BeginsWell events
    → attach_loop false (received (write_events room events)) out
      ≡ (ok tt, show_all (take room events) out)
unfolding attach_loop write_events envelope
attach_loop-first zero [] out h = refl
attach_loop-first zero (e ∷ events) out h = refl
attach_loop-first (suc room) [] out h = refl
attach_loop-first (suc room) (e ∷ events) out h =
    rw h (attach_loop-seen room events (show_event e out))

abbrev pub attach_to : Serving → SessionRequest → Text → Text → Outcome (Unit {0}) × Text
attach_to w request socket out =
    run_attach_command socket
      (lines (received (handle_local_connection w (decoded request)).written)) out

-- On a connection that takes at least one line: a client that attaches prints the events of its
-- subscription in their order, as many as its connection takes, when the first one is no error, and the
-- daemon then detaches exactly this subscriber; a client whose attach the daemon refuses prints nothing
-- and fails with the daemon's message.
pub attach_lem :
    (w : Serving) (request : SessionRequest) (id : ℕ) (events : List ServerEvent)
    (message socket out : Text)
    → is_attach request ≡ true
    → BeginsWell events
    → 1 ≤ w.room
    → let taken = record w { attach = λ r. replied (attached id events) } in
      let denied = record w { attach = λ r. replied (refused message) } in
      (attach_to taken request socket out ≡ (ok tt, show_all (take w.room events) out))
      × ((handle_local_connection taken (decoded request)).detached ≡ some id)
      × (attach_to denied request socket out ≡ (err message, out))
unfolding run_attach_command attach_loop handle_local_connection envelope error_event
attach_lem w request id events message socket out attaches well room =
    (rw attaches (attach_loop-first w.room events out well), rw attaches refl, ground arith)
