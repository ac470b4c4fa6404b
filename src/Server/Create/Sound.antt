-- ===== src/Server/Create/Sound.antt =====
-- The requests that create keep the invariant.
use caterm.Prelude.{ℕ, ◌≡◌, refl, ◌≢◌, Bool, true, false, not, Option, some, [], arith}
use caterm.Text.{Text}
use caterm.Outcome.{ok, panic, ◌>>=◌}
use caterm.BTree.{get}
use caterm.BTree.Laws.{get-insert_self}
use caterm.Pty.{Host, spawn, start_output_pump}
use caterm.Pane.{Pane}
use caterm.Window.{Window}
use caterm.Session.{Session}
use caterm.Roster.{Roster-weaken}
use caterm.Server.State.{Server, Handler, ShellConfig, next_id, put_session}
use caterm.Server.Create.{
  open_pane, spawn_pane, create_session, report_session, report_window, window_of, session_of,
}
use caterm.Server.Valid.{ServerOk, HasRoom, ServerOk-weaken, SessionOk-weaken}
use caterm.Server.Valid.Rules.{
  Sound, Sound-continue, Sound-reads, Sound-gets, Sound-modify, Sound-reads_last, Untouched,
  Returns, guard-calm, guard-ok,
}
use caterm.Server.Valid.Changes.{window_of-WindowOk, session_of-SessionOk, put_session-new}

open_pane-calm :
    (host : Host) (config : ShellConfig) (id : ℕ) (name : Text) (index : ℕ)
    → open_pane host config id name index ≢ panic
unfolding open_pane spawn start_output_pump
open_pane-calm host config id name index e = ground arith

open_pane-id :
    (host : Host) (config : ShellConfig) (id : ℕ) (name : Text) (index : ℕ) (pane : Pane)
    → open_pane host config id name index ≡ ok pane
    → (pane.id ≡ id) × (pane.name ≡ name)
unfolding open_pane spawn start_output_pump
open_pane-id host config id name index pane e = ground arith

-- The reports find what was created.
report_session-ok :
    (s : Server) (id wid pid : ℕ) (session : Session) (window : Window) (pane : Pane)
    → get id s.sessions ≡ some session
    → get wid session.windows ≡ some window
    → get pid window.panes ≡ some pane
    → Returns (report_session id wid pid s)
unfolding report_session
report_session-ok s id wid pid session window pane es ew ep = rw (es, ew, ep) tt

pub report_window-ok :
    (s : Server) (id wid pid : ℕ) (session : Session) (window : Window) (pane : Pane)
    → get id s.sessions ≡ some session
    → get wid session.windows ≡ some window
    → get pid window.panes ≡ some pane
    → Returns (report_window id wid pid s)
unfolding report_window
report_window-ok s id wid pid session window pane es ew ep = rw (es, ew, ep) tt

-- The state after `spawn_pane`.
abbrev pub spent : Server → Server
spent s = record s { next_pane_id = next_id s.next_pane_id }

pub Sound-spawn :
    {B : Type 0} (host : Host) (name : Text) (index : ℕ) (s now : Server) (f : Pane → Handler B)
    → Untouched s (spent now)
    → ((pane : Pane) → pane.id ≡ now.next_pane_id → pane.name ≡ name → Sound s (f pane (spent now)))
    → Sound s ((spawn_pane host name index >>= f) now)
unfolding spawn_pane ◌>>=◌
Sound-spawn host name index s now f u rest =
    Sound-continue s (spent now) (open_pane host now.config now.next_pane_id name index) f u
      (open_pane-calm host now.config now.next_pane_id name index)
      (λ pane opened.
        let own = open_pane-id host now.config now.next_pane_id name index pane opened in
        rest pane own.0 own.1)

report_session-put :
    (s : Server) (id : ℕ) (name : Text) (window : Window) (pane : Pane)
    → get pane.id window.panes ≡ some pane
    → Returns (report_session id window.id pane.id (put_session id (session_of id name window) s))
unfolding put_session
report_session-put s id name window pane there =
    report_session-ok _ id window.id pane.id (session_of id name window) window pane
      (get-insert_self id _ s.sessions) (get-insert_self window.id window []) there

pub not-true : (b : Bool) → not b ≡ true → b ≡ false
not-true b h = ground arith

pub create_session-Sound :
    (host : Host) (name : Option Text) (s : Server)
    → ServerOk s
    → HasRoom s
    → Sound s (create_session host name s)
unfolding create_session
create_session-Sound host name s valid room = Sound-gets _ _ _ _ (
    Sound-modify _ _ _ _ (
      Sound-reads _ _ _ _
        (record {
          valid = ServerOk-weaken s _ refl (omega arith) (omega arith) (omega arith) valid;
          same = refl;
        })
        (guard-calm _ _)
        (λ _ free. Sound-gets _ _ _ _ (
          Sound-modify _ _ _ _ (
            Sound-gets _ _ _ _ (
              Sound-spawn _ _ _ _ _ _
                (record {
                  valid = ServerOk-weaken s _ refl (omega arith) (omega arith) (omega arith) valid;
                  same = refl;
                })
                (λ pane own named. Sound-modify _ _ _ _ (
                  Sound-reads_last _ _ _
                    (put_session-new _ s.next_session_id _ _
                      (Roster-weaken _ _ _ _ s.next_session_id s.next_session_id s.sessions
                        (λ x q.
                          SessionOk-weaken s.next_window_id (next_id s.next_window_id)
                            s.next_pane_id (next_id s.next_pane_id) x (omega arith) (omega arith) q)
                        (omega arith) valid.sessions)
                      (omega arith) (omega arith) refl
                      (session_of-SessionOk _ _ _ _ _ (omega arith)
                        (window_of-WindowOk _ _ _ _ pane (omega (arith, own))))
                      (not-true _ (guard-ok _ _ tt free)))
                    (report_session-put _ _ _ (window_of _ _ _ pane) pane
                      (get-insert_self pane.id pane []))))))))))
