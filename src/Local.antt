-- ===== src/Local.antt =====
-- The Unix socket between a client and the daemon (caterm/src/session_manager/server.rs): one request
-- on a connection, and the lines that come back. What the system and serde_json answer are arguments.
use caterm.Prelude.{
  ℕ, zero, suc, Bool, true, false, Option, none, some, List, [], ◌∷◌, ◌++◌, ◌==◌, if◌then◌else◌,
}
use caterm.Text.{Text, codes}
use caterm.Text.Decimal.{to_string}
use caterm.Outcome.{Outcome, ok, err}
use caterm.Request.{SessionRequest}
use caterm.Event.{ServerEvent, EventEnvelope, envelope, error_event, protocol_version}
use caterm.Command.{CommandResponse}

-- What `next_line` and the decoder behind it come to.
pub data Line (A : Type 0) : Type 0 where
  closed : Line A
  broken : Text → Line A
  decoded : A → Line A

-- What comes back from the request loop: it has stopped, it has dropped the sender, or it replies.
pub data Reply (A : Type 0) : Type 0 where
  stopped dropped : Reply A
  replied : A → Reply A

-- `Result<AttachedClient, String>`, with the events that the receiver gives until it closes.
pub data Attached : Type 0 where
  attached : ℕ → List ServerEvent → Attached
  refused : Text → Attached

pub data Sent : Type 0 where
  response : CommandResponse → Sent
  event : EventEnvelope → Sent

-- How a connection has ended: its result, the lines written, and the subscriber of the `Detach` that
-- it sends.
pub record Served : Type 0 where
  pub result : Outcome (Unit {0})
  pub written : List Sent
  pub detached : Option ℕ

abbrev pub gave_up : Text → Served
gave_up message = record { result = err message; written = []; detached = none }

-- Writing one line, when the stream takes `room` more lines, and fails with `error` behind them.
abbrev pub write_line : ℕ → Text → Sent → Served
write_line zero error line = gave_up error
write_line (suc room) error line = record { result = ok tt; written = line ∷ []; detached = none }

-- The loop over the events, which a write that fails ends.
unfoldable pub write_events : ℕ → List ServerEvent → List Sent
write_events room [] = []
write_events zero (e ∷ events) = []
write_events (suc room) (e ∷ events) = event (envelope e) ∷ write_events room events

abbrev pub serve_attached : ℕ → Text → Reply Attached → Served
serve_attached room error stopped = gave_up (codes "server request loop has stopped")
serve_attached room error dropped = gave_up (codes "server request loop dropped attach response")
serve_attached room error (replied (refused message)) =
    write_line room error (event (envelope (error_event message)))
serve_attached room error (replied (attached subscriber_id events)) = record {
  result = ok tt;
  written = write_events room events;
  detached = some subscriber_id;
}

abbrev pub serve_command : ℕ → Text → Reply CommandResponse → Served
serve_command room error stopped = gave_up (codes "server request loop has stopped")
serve_command room error dropped = gave_up (codes "server request loop dropped the response")
serve_command room error (replied r) = write_line room error (response r)

abbrev pub is_attach : SessionRequest → Bool
is_attach (SessionRequest.attach session window pane) = true
is_attach _ = false

-- What the loop makes of commands and of attach requests, and how much the stream takes.
pub record Serving : Type 0 where
  pub command : SessionRequest → Reply CommandResponse
  pub attach : SessionRequest → Reply Attached
  pub room : ℕ
  pub error : Text

unfoldable pub handle_local_connection : Serving → Line SessionRequest → Served
unfolding write_events
handle_local_connection w closed = record { result = ok tt; written = []; detached = none }
handle_local_connection w (broken message) = gave_up message
handle_local_connection w (decoded request) =
    if is_attach request
    then serve_attached w.room w.error (w.attach request)
    else serve_command w.room w.error (w.command request)

-- What happens on a client's connection: it is refused, the request cannot be written, or a line
-- comes back.
pub data Dial : Type 0 where
  unreachable : Dial
  unwritten : Text → Dial
  answered : Line CommandResponse → Dial

abbrev pub version_mismatch : ℕ → Text
version_mismatch version =
    codes "protocol version mismatch: daemon="
    ++ (to_string version ++ (codes " client=" ++ to_string protocol_version))

abbrev pub cannot_connect : Text → Text
cannot_connect socket = codes "failed to connect to Caterm server at " ++ socket

abbrev pub check_version : CommandResponse → Outcome CommandResponse
check_version r = if r.version == protocol_version then ok r else err (version_mismatch r.version)

unfoldable pub send_client_request : Text → Dial → Outcome CommandResponse
send_client_request socket unreachable = err (cannot_connect socket)
send_client_request socket (unwritten message) = err message
send_client_request socket (answered closed) =
    err (codes "server closed connection without responding")
send_client_request socket (answered (broken message)) = err message
send_client_request socket (answered (decoded r)) = check_version r
