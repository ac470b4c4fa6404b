-- ===== src/Server/Select/Place.antt =====
-- What the lookups of a window and a pane give in a valid state.
use caterm.Prelude.{ℕ, ◌≡◌, refl, some, arith}
use caterm.Text.{Text}
use caterm.Outcome.{ok}
use caterm.BTree.{get}
use caterm.Pane.{Pane}
use caterm.Window.{Window}
use caterm.Session.{Session}
use caterm.Server.State.{Server, window_at}
use caterm.Server.Resolve.{resolve_window_id, resolve_pane_id}
use caterm.Server.Resolve.Targets.{resolve_window_id_lem, resolve_pane_id_lem}
use caterm.Server.Valid.{WindowOk, SessionOk, ServerOk}
use caterm.Server.Valid.Rules.{Untouched}

-- Nothing has changed yet.
pub Untouched-refl : (s : Server) → ServerOk s → Untouched s s
Untouched-refl s valid = record { valid = valid; same = refl }

-- What the lookups of a window give.
pub record Place (s : Server) (sid wid : ℕ) (session : Session) (window : Window) : Type 0 where
  pub found : get sid s.sessions ≡ some session
  pub there : get wid session.windows ≡ some window
  pub session_ok : SessionOk s.next_window_id s.next_pane_id session
  pub window_own : window.id ≡ wid
  pub window_ok : WindowOk s.next_pane_id window

pub Place-of :
    (s : Server) (sid wid : ℕ) (session : Session) (window : Window)
    → ServerOk s
    → get sid s.sessions ≡ some session
    → get wid session.windows ≡ some window
    → Place s sid wid session window
Place-of s sid wid session window valid found there =
    let ok' = (valid.sessions.ids sid session found).2 in
    let own = ok'.windows.ids wid window there in
    record { found = found; there = there; session_ok = ok'; window_own = own.0; window_ok = own.2 }

pub window_in :
    (s : Server) (sid wid : ℕ) (target : Text) (session : Session)
    → ServerOk s
    → resolve_window_id s sid target ≡ ok wid
    → get sid s.sessions ≡ some session
    → (window : Window) × (get wid session.windows ≡ some window)
window_in s sid wid target session valid resolved found =
    let (session', window, found', there, _) =
      resolve_window_id_lem s sid wid target valid resolved in
    (window, ground arith)

pub pane_in :
    (s : Server) (sid wid pid : ℕ) (target : Text) (window : Window)
    → ServerOk s
    → resolve_pane_id s sid wid target ≡ ok pid
    → window_at s sid wid ≡ ok window
    → (pane : Pane) × (get pid window.panes ≡ some pane)
pane_in s sid wid pid target window valid resolved at =
    let (window', pane, at', there, _) = resolve_pane_id_lem s sid wid pid target valid resolved in
    (pane, ground arith)
