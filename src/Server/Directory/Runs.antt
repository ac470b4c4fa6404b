-- ===== src/Server/Directory/Runs.antt =====
-- The ids of sessions over a run of the daemon.
use caterm.Prelude.{
  ℕ, ◌<◌, ◌≤◌, Option, none, map_opt, List, ◌≡◌, refl, ap, arith, inl, inr, Bool-cases, is_empty,
  if◌then◌else◌,
}
use caterm.Outcome.{Outcome, Answer, ok, err, panic, done, failed, continue, pure, ◌>>=◌}
use caterm.Pty.{Host, Poll}
use caterm.BTree.{get}
use caterm.Session.{Session}
use caterm.Event.{ServerEvent}
use caterm.Request.{SessionRequest}
use caterm.Snapshot.{ServerSnapshot}
use caterm.Server.State.{Server, Handler, CommandOutcome}
use caterm.Server.Valid.{ServerOk, HasRoom}
use caterm.Server.Valid.Alike.{ServerOk-same, HasRoom-same}
use caterm.Server.Client.{attach_client, broadcast_events}
use caterm.Server.Runtime.{collect_runtime_events}
use caterm.Server.Runtime.Valid.{collect_runtime_events-SameServer}
use caterm.Server.Dispatch.{
  Daemon, perform, handle_request, splice, conclude, run_command, run_attach, run_detach, run_tick,
}
use caterm.Server.Dispatch.Run.{
  Step, commanded, attached, detached, ticked, Run, start, turn, Step-ServerOk,
}
use caterm.Server.Directory.{name_of}
use caterm.Server.Directory.Names.{SameNames-refl, SameNames-collect, SameNames-broadcast_events}
use caterm.Server.Directory.Ids.{Later, Later-same, Later-trans, perform-Later}

Later-refl : (s : Server) → Later s s
Later-refl s = Later-same s s (SameNames-refl s)

Later-continue :
    {A B : Type 0} (base : Server) (r : Outcome A) (f : A → Handler B) (now : Server)
    → Later base now
    → ((a : A) → Later base (f a now).1)
    → Later base (continue r f now).1
Later-continue base (ok a) f now later rest = rest a
Later-continue base (err message) f now later rest = later
Later-continue base panic f now later rest = later

Later-bind :
    {A B : Type 0} (base : Server) (m : Handler A) (f : A → Handler B) (now : Server)
    → Later base (m now).1
    → ((a : A) → Later base (f a (m now).1).1)
    → Later base ((m >>= f) now).1
unfolding ◌>>=◌
Later-bind base m f now later rest = Later-continue base (m now).0 f (m now).1 later rest

Later-pure :
    {A : Type 0} (base : Server) (a : A) (now : Server) → Later base now → Later base (pure a now).1
unfolding pure
Later-pure base a now later = later

handle_request-Later :
    (host : Host) (request : SessionRequest) (s : Server)
    → ServerOk s
    → HasRoom s
    → Later s (handle_request host request s).1
unfolding handle_request
handle_request-Later host request s valid room =
    let same = collect_runtime_events-SameServer (host.poll 0) s in
    let now = (collect_runtime_events (host.poll 0) s).1 in
    let collected = Later-same s now (SameNames-collect s s (host.poll 0) (SameNames-refl s)) in
    let next =
      perform-Later host request now (ServerOk-same s now same valid)
        (HasRoom-same s now same room) in
    let performed = Later-trans s now _ collected next in
    Later-bind s (collect_runtime_events (host.poll 0)) _ s collected (λ events.
      Later-bind s (perform host request) _ now performed
        (λ outcome. Later-pure s (splice events outcome) _ performed))

broadcast-Later :
    (base now : Server) (events : List ServerEvent)
    → Later base now
    → Later base (broadcast_events events now)
broadcast-Later base now events later =
    Later-trans base now _ later
      (Later-same now _ (SameNames-broadcast_events now now events (SameNames-refl now)))

saved-Later :
    (host : Host) (outcome : CommandOutcome) (base s : Server) (file : Option ServerSnapshot)
    (saved : Answer (Unit {0}))
    → host.save ≡ saved
    → Later base s
    → Later base (conclude host (ok outcome) s file).1.server
saved-Later host outcome base s file (done u) e later =
    rw e (broadcast-Later base s outcome.broadcast_events later)
saved-Later host outcome base s file (failed message) e later = rw e later

conclude-Later :
    (host : Host) (r : Outcome CommandOutcome) (base s : Server) (file : Option ServerSnapshot)
    → Later base s
    → Later base (conclude host r s file).1.server
conclude-Later host (err message) base s file later = later
conclude-Later host panic base s file later = later
conclude-Later host (ok outcome) base s file later =
    saved-Later host outcome base s file host.save refl later

attach_client-same :
    (request : SessionRequest) (s : Server)
    → ((attach_client request s).1.sessions ≡ s.sessions)
      × ((attach_client request s).1.next_session_id ≡ s.next_session_id)
unfolding attach_client ◌>>=◌
attach_client-same request s = ground arith

attach_client-Later : (request : SessionRequest) (s : Server) → Later s (attach_client request s).1
attach_client-Later request s = Later-same s _ (record {
  at = λ j. ap (λ m. map_opt (λ (x : Session). x.name) (get j m)) (attach_client-same request s).0;
  counter = (attach_client-same request s).1;
})

run_tick-Later : (poll : Poll) (d : Daemon) → Later d.server (run_tick poll d).1.server
unfolding run_tick ◌>>=◌
run_tick-Later poll d =
    ticked_from (collect_runtime_events poll d.server).0 (collect_runtime_events poll d.server).1
      (Later-same d.server _ (SameNames-collect d.server d.server poll (SameNames-refl d.server)))
  where
    ticked_from :
        (r : Outcome (List ServerEvent)) (s : Server)
        → Later d.server s
        → Later d.server
            (continue r
              (λ events e. (
                ok tt,
                record e {
                  server = if is_empty events then e.server else broadcast_events events e.server;
                },
              ))
              (record d { server = s })).1.server
    ticked_from (ok events) s later = elim (Bool-cases (is_empty events)) [
      | inl quiet ↦ rw quiet later
      | inr busy ↦ rw busy (broadcast-Later d.server s events later)
    ]
    ticked_from (err message) s later = later
    ticked_from panic s later = later

Step-Later :
    (d d' : Daemon) → HasRoom d.server → ServerOk d.server → Step d d' → Later d.server d'.server
unfolding run_command run_attach run_detach
Step-Later d d' room valid (commanded host request) =
    conclude-Later host (handle_request host request d.server).0 d.server
      (handle_request host request d.server).1 d.state_file
      (handle_request-Later host request d.server valid room)
Step-Later d d' room valid (attached request) = attach_client-Later request d.server
Step-Later d d' room valid (detached subscriber_id) =
    Later-same d.server _ (record { at = λ j. refl; counter = refl })
Step-Later d d' room valid (ticked poll) = run_tick-Later poll d

Run-Later :
    (d d' : Daemon) → ServerOk d.server → Run d d' → ServerOk d'.server × Later d.server d'.server
Run-Later d d' valid start = (valid, Later-refl d.server)
Run-Later d d' valid (turn run room step) =
    let (now, later) = Run-Later d _ valid run in
    (
      Step-ServerOk _ d' room now step,
      Later-trans d.server _ d'.server later (Step-Later _ d' room now step),
    )

-- An id of a session is not given out again while the daemon runs: from a valid server, an id below
-- the counter that no session has is had by no session after any commands, clients that come and go
-- and turns of the timer, with any answers of the system, as long as each begins with room in the
-- counters; and the counter does not fall.
pub Run-free :
    (d d' : Daemon)
    → ServerOk d.server
    → Run d d'
    → (d.server.next_session_id ≤ d'.server.next_session_id)
      × ((j : ℕ)
          → j < d.server.next_session_id
          → name_of d.server j ≡ none
          → name_of d'.server j ≡ none)
Run-free d d' valid run = let later = (Run-Later d d' valid run).1 in (later.counter, later.free)
