-- ===== src/Server/Valid.antt =====
-- The invariant of the server's hierarchy.
pub mod Rules
pub mod Keeps
pub mod Alike
pub mod Changes
pub mod Windows
use caterm.Prelude.{ℕ, ◌+◌, ◌^◌, ◌≤◌, ◌<◌, ◌≡◌, refl, ◌≢◌, Option, some, arith, length}
use caterm.BTree.{BTree, get, insert}
use caterm.Pane.{Pane}
use caterm.Window.{Window}
use caterm.Session.{Session}
use caterm.Roster.{Roster, Active, Roster-weaken, Roster-replace, Roster-rename, Active-insert}
use caterm.Server.State.{Server, find_window, put_session}

abbrev pub pane_id : Pane → ℕ
pane_id pane = pane.id

-- A window holds panes below the counter, with different names, and one of them is active.
pub record WindowOk (next_pane : ℕ) (window : Window) : Type 0 where
  pub panes : Roster (λ (p : Pane). p.id) (λ p. p.name) (λ _. Unit {0}) next_pane window.panes
  pub active : Active window.active_pane_id window.panes

pub record SessionOk (next_window next_pane : ℕ) (session : Session) : Type 0 where
  pub windows :
      Roster (λ (w : Window). w.id) (λ w. w.name) (WindowOk next_pane) next_window session.windows
  pub active : Active session.active_window_id session.windows

-- Every session has a window, every window a pane, the active ones among them; ids are those of the
-- keys and below the counters; names differ within their container.
pub record ServerOk (s : Server) : Type 0 where
  pub sessions :
      Roster
        (λ (x : Session). x.id)
        (λ x. x.name)
        (SessionOk s.next_window_id s.next_pane_id)
        s.next_session_id
        s.sessions

-- The counters are not about to wrap, and no window is about to hold 65536 panes.
pub record HasRoom (s : Server) : Type 0 where
  pub sessions : s.next_session_id + 1 < 2 ^ 64
  pub windows : s.next_window_id + 1 < 2 ^ 64
  pub panes : s.next_pane_id + 1 < 2 ^ 64
  pub few :
      (sid wid : ℕ) (window : Window)
      → find_window s.sessions sid wid ≡ some window
      → length window.panes + 1 < 65536

WindowOk-weaken : (n n' : ℕ) (window : Window) → n ≤ n' → WindowOk n window → WindowOk n' window
WindowOk-weaken n n' window le h = record {
  panes = Roster-weaken _ _ _ _ n n' window.panes (λ p q. q) le h.panes;
  active = h.active;
}

pub SessionOk-weaken :
    (w w' p p' : ℕ) (session : Session)
    → w ≤ w'
    → p ≤ p'
    → SessionOk w p session
    → SessionOk w' p' session
SessionOk-weaken w w' p p' session lew lep h = record {
  windows =
      Roster-weaken _ _ _ _ w w' session.windows (λ x q. WindowOk-weaken p p' x lep q) lew
        h.windows;
  active = h.active;
}

-- The same sessions under larger counters.
pub ServerOk-weaken :
    (s s' : Server)
    → s'.sessions ≡ s.sessions
    → s.next_session_id ≤ s'.next_session_id
    → s.next_window_id ≤ s'.next_window_id
    → s.next_pane_id ≤ s'.next_pane_id
    → ServerOk s
    → ServerOk s'
ServerOk-weaken s s' same ls lw lp h = record {
  sessions = rw same (
      Roster-weaken _ _ _ _ s.next_session_id s'.next_session_id s.sessions
        (λ x q.
          SessionOk-weaken s.next_window_id s'.next_window_id s.next_pane_id s'.next_pane_id x lw lp
            q)
        ls h.sessions);
}
