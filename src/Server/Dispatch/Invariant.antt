-- ===== src/Server/Dispatch/Invariant.antt =====
-- Whatever a request comes to, the hierarchy stays valid; so does the whole run of a daemon.
use caterm.Prelude.{ℕ, ◌≡◌, refl, some, List, arith, inl, inr, Option-cases}
use caterm.Text.{Text}
use caterm.Outcome.{Outcome, ok, err, panic, pure, lift, reads, modify, continue, ◌>>=◌}
use caterm.Outcome.Laws.{ok_or-eq-ok}
use caterm.BTree.{get, insert}
use caterm.Pty.{Host, Poll, PtySession}
use caterm.Pane.{Pane}
use caterm.Window.{Window}
use caterm.Event.{ServerEvent}
use caterm.Request.{SessionRequest}
use caterm.Roster.{Roster-replace, Active-insert}
use caterm.Server.State.{Server, Handler, find_window, find_pane, put_window}
use caterm.Server.Client.{broadcast_events}
use caterm.Server.Runtime.{collect_runtime_events}
use caterm.Server.Runtime.Valid.{collect_runtime_events-SameServer}
use caterm.Server.Delete.{send_input, put_pty}
use caterm.Server.Delete.PaneSound.{delete_pane-Keeps}
use caterm.Server.Select.Place.{Place-of}
use caterm.Server.Dispatch.{perform, handle_request}
use caterm.Server.Dispatch.Sound.{perform-Sound}
use caterm.Server.Valid.{ServerOk, HasRoom}
use caterm.Server.Valid.Alike.{ServerOk-same, HasRoom-same}
use caterm.Server.Valid.Keeps.{Keeps, Sound-Keeps}
use caterm.Server.Valid.Changes.{put_window-ServerOk}

Keeps-ServerOk : {A : Type 0} (r : Outcome A × Server) → Keeps r → ServerOk r.1
unfolding Keeps
Keeps-ServerOk (ok a, s) h = h
Keeps-ServerOk (err message, s) h = h
Keeps-ServerOk (panic, s) h = absurd h

continue-ServerOk :
    {A B : Type 0} (r : Outcome A) (f : A → Handler B) (now : Server)
    → ServerOk now
    → ((a : A) → r ≡ ok a → ServerOk (f a now).1)
    → ServerOk (continue r f now).1
continue-ServerOk (ok a) f now valid rest = rest a refl
continue-ServerOk (err message) f now valid rest = valid
continue-ServerOk panic f now valid rest = valid

-- A step that ends in a valid state, and what follows its result.
module _ {A B : Type 0} (now : Server) where
  bind-ServerOk :
      (m : Handler A) (f : A → Handler B)
      → ServerOk (m now).1
      → ((a : A) → (m now).0 ≡ ok a → ServerOk (f a (m now).1).1)
      → ServerOk ((m >>= f) now).1
  unfolding ◌>>=◌
  bind-ServerOk m f valid rest = continue-ServerOk (m now).0 f (m now).1 valid rest

  pub reads-ServerOk :
      (g : Server → Outcome A) (f : A → Handler B)
      → ServerOk now
      → ((a : A) → g now ≡ ok a → ServerOk (f a now).1)
      → ServerOk ((reads g >>= f) now).1
  unfolding ◌>>=◌
  reads-ServerOk g f valid rest = continue-ServerOk (g now) f now valid rest

  lift-ServerOk :
      (r : Outcome A) (f : A → Handler B)
      → ServerOk now
      → ((a : A) → r ≡ ok a → ServerOk (f a now).1)
      → ServerOk ((lift r >>= f) now).1
  unfolding ◌>>=◌
  lift-ServerOk r f valid rest = continue-ServerOk r f now valid rest

modify-ServerOk :
    {B : Type 0} (now : Server) (h : Server → Server) (f : Unit {0} → Handler B)
    → ServerOk (f tt (h now)).1
    → ServerOk ((modify h >>= f) now).1
unfolding ◌>>=◌
modify-ServerOk now h f rest = rest

pure-ServerOk :
    {A : Type 0} (now : Server) (a : A) → ServerOk now → ServerOk (pure {S = Server} a now).1
unfolding pure
pure-ServerOk now a valid = valid

pub broadcast_events-ServerOk :
    (s : Server) (events : List ServerEvent) → ServerOk s → ServerOk (broadcast_events events s)
unfolding broadcast_events
broadcast_events-ServerOk s events valid = record { sessions = valid.sessions }

put_pty-eq :
    (s : Server) (sid wid pid : ℕ) (pty : PtySession) (pane : Pane) (window : Window)
    → find_window s.sessions sid wid ≡ some window
    → put_pty sid wid pid pty pane s
      ≡ put_window sid wid
          (record window { panes = insert pid (record pane { pty = pty }) window.panes })
          s
put_pty-eq s sid wid pid pty pane window found = unfold put_pty in rw (found, put_pty)

put_pty-ServerOk :
    (s : Server) (sid wid pid : ℕ) (pty : PtySession) (pane : Pane)
    → ServerOk s
    → find_pane s.sessions sid wid pid ≡ some pane
    → ServerOk (put_pty sid wid pid pty pane s)
put_pty-ServerOk s sid wid pid pty pane valid e = elim (Option-cases (get sid s.sessions)) [
  | inl gone ↦ absurd (ground arith)
  | inr (session, found) ↦ elim (Option-cases (get wid session.windows)) [
    | inl gone ↦ absurd (ground arith)
    | inr (window, there) ↦
        let inside : get pid window.panes ≡ some pane = ground arith in
        let place = Place-of s sid wid session window valid found there in
        rw (put_pty-eq s sid wid pid pty pane window (rw found there)) (
          put_window-ServerOk s sid wid session _ window valid found there refl refl (record {
            panes =
                Roster-replace _ _ _ s.next_pane_id pid _ pane window.panes place.window_ok.panes
                  inside (place.window_ok.panes.ids pid pane inside).0 refl tt;
            active = Active-insert window.active_pane_id pid _ window.panes place.window_ok.active;
          }))
  ]
]

pub collect-ServerOk :
    (poll : Poll) (s : Server) → ServerOk s → ServerOk (collect_runtime_events poll s).1
collect-ServerOk poll s valid = ServerOk-same s _ (collect_runtime_events-SameServer poll s) valid

send_input-ServerOk :
    (host : Host) (session_target window_target pane_target input : Text) (s : Server)
    → ServerOk s
    → ServerOk (send_input host session_target window_target pane_target input s).1
unfolding send_input
send_input-ServerOk host session_target window_target pane_target input s valid =
    reads-ServerOk _ _ _ valid (λ sid _. reads-ServerOk _ _ _ valid (λ wid _.
      reads-ServerOk _ _ _ valid (λ pid _. reads-ServerOk _ _ _ valid (λ pane found.
        lift-ServerOk _ _ _ valid (λ _ _. lift-ServerOk _ _ _ valid (λ pty _.
          let now = put_pty-ServerOk s sid wid pid pty pane valid (ok_or-eq-ok _ _ found) in
          modify-ServerOk _ _ _ (
            bind-ServerOk _ _ _ (collect-ServerOk (host.poll 1) _ now) (λ events _.
              modify-ServerOk _ _ _ (
                pure-ServerOk _ _ (
                  broadcast_events-ServerOk _ events
                    (collect-ServerOk (host.poll 1) _ now)))))))))))

perform-ServerOk :
    (host : Host) (request : SessionRequest) (s : Server)
    → ServerOk s
    → HasRoom s
    → ServerOk (perform host request s).1
unfolding perform
perform-ServerOk host (SessionRequest.delete_pane session window target) s valid room =
    Keeps-ServerOk _ (delete_pane-Keeps host session window target s valid room)
perform-ServerOk host (SessionRequest.send_input session window pane input) s valid room =
    send_input-ServerOk host session window pane input s valid
perform-ServerOk host other s valid room =
    Keeps-ServerOk _ (Sound-Keeps s _ (perform-Sound host other s tt valid room))

-- From a valid state with room, every request ends in a valid state, whatever it comes to: its
-- result, an error at any step, or a panic.
pub handle_request-ServerOk :
    (host : Host) (request : SessionRequest) (s : Server)
    → ServerOk s
    → HasRoom s
    → ServerOk (handle_request host request s).1
unfolding handle_request
handle_request-ServerOk host request s valid room =
    let same = collect_runtime_events-SameServer (host.poll 0) s in
    let now = ServerOk-same s _ same valid in
    let after = perform-ServerOk host request _ now (HasRoom-same s _ same room) in
    bind-ServerOk s _ _ now
      (λ events _. bind-ServerOk _ _ _ after (λ outcome _. pure-ServerOk _ _ after))
