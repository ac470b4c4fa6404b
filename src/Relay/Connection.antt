-- ===== src/Relay/Connection.antt =====
-- A connection of the daemon to the relay (`run_connection`, caterm/src/relay.rs), from the frames
-- that it receives to those that it sends. The loop of the daemon is the function `serve` on a state
-- of its own, which may also hold what others ask of the daemon in between; payloads are numbers, and
-- the writer takes `room` more frames.
use caterm.Prelude.{
  ℕ, zero, suc, ◌≤◌, Option, none, some, List, [], ◌∷◌, ◌++◌, length, ◌≡◌, refl, arith,
}
use caterm.Text.{Text, codes}
use caterm.Outcome.{Outcome, ok, err, panic}
use caterm.Request.{SessionRequest}
use caterm.Command.{CommandResponse}
use caterm.Local.{Reply, stopped, dropped, replied}

-- A message, where a text holds a request or does not decode, or an error of the stream.
pub data Frame : Type 0 where
  text : Option SessionRequest → Frame
  ping close : ℕ → Frame
  binary pong frame : Frame
  failed : Text → Frame

pub data Reaction : Type 0 where
  answer : CommandResponse → Reaction
  sent_pong sent_close : ℕ → Reaction

-- What the connection comes to, what it has sent, and the state of the daemon behind it.
abbrev pub Run : Type 0 → Type 0
Run S = Outcome (Unit {0}) × List Reaction × S

-- The loop of the daemon takes a request and replies, or does not.
abbrev pub Serve : Type 0 → Type 0
Serve S = SessionRequest → S → Reply CommandResponse × S

unfoldable pub dispatch_request : Reply CommandResponse → Outcome CommandResponse
dispatch_request stopped = err (codes "daemon request loop is not running")
dispatch_request dropped = err (codes "daemon request loop dropped relay response")
dispatch_request (replied response) = ok response

module _ {S : Type 0} where
  -- `writer.send(reaction).await?` (the text of its error is left out), and what comes behind it with
  -- the room that is left.
  abbrev pub send : Reaction → ℕ → S → (ℕ → S → Run S) → Run S
  send reaction zero s later = (err [], [], s)
  send reaction (suc room) s later =
      let (r, reactions, s') = later room s in (r, reaction ∷ reactions, s')

  -- A send whose error is dropped, before the loop is left.
  abbrev pub send_last : Reaction → ℕ → S → Run S
  send_last reaction zero s = (ok tt, [], s)
  send_last reaction (suc room) s = (ok tt, reaction ∷ [], s)

  abbrev pub respond : Outcome CommandResponse → ℕ → S → (ℕ → S → Run S) → Run S
  respond (ok response) room s later = send (answer response) room s later
  respond (err message) room s later = (err message, [], s)
  respond panic room s later = (panic, [], s)

  -- The loop over the frames.
  unfoldable pub receive : Serve S → List Frame → ℕ → S → Run S
  unfolding dispatch_request
  receive serve [] room s = (ok tt, [], s)
  receive serve (failed message ∷ frames) room s = (err message, [], s)
  receive serve (text none ∷ frames) room s = (err (codes "failed to decode relay request"), [], s)
  receive serve (text (some request) ∷ frames) room s =
      let (reply, s') = serve request s in
      respond (dispatch_request reply) room s' (receive serve frames)
  receive serve (ping payload ∷ frames) room s =
      send (sent_pong payload) room s (receive serve frames)
  receive serve (close payload ∷ frames) room s = send_last (sent_close payload) room s
  receive serve (binary ∷ frames) room s = receive serve frames room s
  receive serve (pong ∷ frames) room s = receive serve frames room s
  receive serve (frame ∷ frames) room s = receive serve frames room s

  -- `connect_async` gives the frames, or fails.
  unfoldable pub run_connection : Serve S → Text → Option (List Frame) → ℕ → S → Run S
  unfolding receive
  run_connection serve url none room s =
      (err (codes "failed to connect to relay at " ++ url), [], s)
  run_connection serve url (some frames) room s = receive serve frames room s

  -- The daemon replies to each of the requests, one after the other, from the state that the one before
  -- has left.
  pub data Replies (serve : Serve S)
      : List SessionRequest → S → List CommandResponse → S → Type 0 where
    nothing_asked : (s : S) → Replies serve [] s [] s
    asked :
        (request : SessionRequest) (requests : List SessionRequest) (s s' s'' : S)
        (response : CommandResponse) (responses : List CommandResponse)
        → serve request s ≡ (replied response, s')
        → Replies serve requests s' responses s''
        → Replies serve (request ∷ requests) s (response ∷ responses) s''

abbrev pub answers : List CommandResponse → List Reaction
answers [] = []
answers (response ∷ responses) = answer response ∷ answers responses

abbrev pub texts : List SessionRequest → List Frame → List Frame
texts [] later = later
texts (request ∷ requests) later = text (some request) ∷ texts requests later

receive-texts :
    {S : Type 0} (serve : Serve S) (requests : List SessionRequest) (s s' : S)
    (responses : List CommandResponse) (later : List Frame) (room : ℕ)
    → Replies serve requests s responses s'
    → length requests ≤ room
    → receive serve (texts requests (text none ∷ later)) room s
      ≡ (err (codes "failed to decode relay request"), answers responses, s')
unfolding receive dispatch_request
receive-texts serve requests s s' responses later room (nothing_asked t) h = refl
receive-texts serve requests s s'' responses later zero (asked r rs t s' t'' x xs served replies)
      h =
    absurd (omega arith)
receive-texts serve requests s s'' responses later (suc room)
      (asked r rs t s' t'' x xs served replies) h =
    rw (served, receive-texts serve rs s' s'' xs later room replies (omega arith)) refl

-- Requests that come over the relay to a daemon that replies to each of them, on a connection that takes
-- as many frames, are answered one by one and in order, each from the state that the one before has
-- left, until a text that does not decode: it ends the connection with an error, and what stands behind
-- it is neither served nor answered.
pub run_connection-texts :
    {S : Type 0} (serve : Serve S) (url : Text) (requests : List SessionRequest) (s s' : S)
    (responses : List CommandResponse) (later : List Frame) (room : ℕ)
    → Replies serve requests s responses s'
    → length requests ≤ room
    → run_connection serve url (some (texts requests (text none ∷ later))) room s
      ≡ (err (codes "failed to decode relay request"), answers responses, s')
unfolding run_connection
run_connection-texts serve url requests s s' responses later room replies h =
    receive-texts serve requests s s' responses later room replies h
