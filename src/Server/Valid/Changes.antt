-- ===== src/Server/Valid/Changes.antt =====
-- How the invariant passes a change of one session or one window.
use caterm.Prelude.{ℕ, ◌≤◌, ◌<◌, ◌≡◌, refl, false, some, arith, any, ◌∙◌}
use caterm.Text.{Text}
use caterm.BTree.{get, insert, values}
use caterm.BTree.Laws.{get-insert_self}
use caterm.Pane.{Pane}
use caterm.Window.{Window}
use caterm.Session.{Session}
use caterm.Roster.{Roster, Roster-empty, Roster-insert, Roster-replace, Active-insert, Active-self}
use caterm.Server.State.{Server, put_session, put_window, find_window, find_pane}
use caterm.Server.Create.{window_of, session_of, add_window, named_session, named_window}
use caterm.Server.Valid.{WindowOk, SessionOk, ServerOk}

pub window_of-WindowOk :
    (np id index : ℕ) (name : Text) (pane : Pane)
    → pane.id < np
    → WindowOk np (window_of id index name pane)
unfolding values
window_of-WindowOk np id index name pane below = record {
  panes =
      Roster-insert _ _ _ 0 np pane.id pane _ (Roster-empty _ _ _ 0) (omega arith) refl below tt
        refl;
  active = Active-self pane.id pane _;
}

pub session_of-SessionOk :
    (nw np id : ℕ) (name : Text) (window : Window)
    → window.id < nw
    → WindowOk np window
    → SessionOk nw np (session_of id name window)
unfolding values
session_of-SessionOk nw np id name window below valid = record {
  windows =
      Roster-insert _ _ _ 0 nw window.id window _ (Roster-empty _ _ _ 0) (omega arith) refl below
        valid refl;
  active = Active-self window.id window _;
}

pub add_window-SessionOk :
    (nw nw' np : ℕ) (session : Session) (window : Window)
    → SessionOk nw np session
    → nw ≤ window.id
    → window.id < nw'
    → WindowOk np window
    → any (named_window window.name) (values session.windows) ≡ false
    → SessionOk nw' np (add_window session window)
add_window-SessionOk nw nw' np session window valid fresh below ok' free = record {
  windows =
      Roster-insert _ _ _ nw nw' window.id window session.windows valid.windows fresh refl below ok'
        free;
  active = Active-self window.id window session.windows;
}

pub put_session-new :
    (s : Server) (old sid : ℕ) (session : Session)
    → Roster
        (λ (x : Session). x.id)
        (λ x. x.name)
        (SessionOk s.next_window_id s.next_pane_id)
        old
        s.sessions
    → old ≤ sid
    → sid < s.next_session_id
    → session.id ≡ sid
    → SessionOk s.next_window_id s.next_pane_id session
    → any (named_session session.name) (values s.sessions) ≡ false
    → ServerOk (put_session sid session s)
unfolding put_session
put_session-new s old sid session roster fresh below own valid free = record {
  sessions =
      Roster-insert _ _ _ old s.next_session_id sid session s.sessions roster fresh own below valid
        free;
}

pub put_session-ServerOk :
    (s : Server) (sid : ℕ) (session old : Session)
    → ServerOk s
    → get sid s.sessions ≡ some old
    → session.id ≡ old.id
    → session.name ≡ old.name
    → SessionOk s.next_window_id s.next_pane_id session
    → ServerOk (put_session sid session s)
unfolding put_session
put_session-ServerOk s sid session old valid found own same ok' = record {
  sessions =
      Roster-replace _ _ _ s.next_session_id sid session old s.sessions valid.sessions found
        (own ∙ (valid.sessions.ids sid old found).0) same ok';
}

-- The session around a changed window is valid.
pub put_window-SessionOk :
    (nw np wid : ℕ) (session : Session) (window old : Window)
    → SessionOk nw np session
    → get wid session.windows ≡ some old
    → window.id ≡ old.id
    → window.name ≡ old.name
    → WindowOk np window
    → SessionOk nw np (record session { windows = insert wid window session.windows })
put_window-SessionOk nw np wid session window old valid found own same ok' = record {
  windows =
      Roster-replace _ _ _ nw wid window old session.windows valid.windows found
        (own ∙ (valid.windows.ids wid old found).0) same ok';
  active = Active-insert session.active_window_id wid window session.windows valid.active;
}

pub put_window-eq :
    (s : Server) (sid wid : ℕ) (session : Session) (window : Window)
    → get sid s.sessions ≡ some session
    → put_window sid wid window s
      ≡ put_session sid (record session { windows = insert wid window session.windows }) s
put_window-eq s sid wid session window found = unfold put_window in rw (found, put_window)

pub put_window-ServerOk :
    (s : Server) (sid wid : ℕ) (session : Session) (window old : Window)
    → ServerOk s
    → get sid s.sessions ≡ some session
    → get wid session.windows ≡ some old
    → window.id ≡ old.id
    → window.name ≡ old.name
    → WindowOk s.next_pane_id window
    → ServerOk (put_window sid wid window s)
put_window-ServerOk s sid wid session window old valid found there own same ok' =
    rw (put_window-eq s sid wid session window found) (
      put_session-ServerOk s sid _ session valid found refl refl (
        put_window-SessionOk s.next_window_id s.next_pane_id wid session window old
          (valid.sessions.ids sid session found).2 there own same ok'))

pub find_window-put_session :
    (s : Server) (sid wid : ℕ) (session : Session)
    → find_window (put_session sid session s).sessions sid wid ≡ get wid session.windows
unfolding put_session
find_window-put_session s sid wid session = rw (get-insert_self sid session s.sessions) refl

find_window-put_window :
    (s : Server) (sid wid : ℕ) (session : Session) (window : Window)
    → get sid s.sessions ≡ some session
    → find_window (put_window sid wid window s).sessions sid wid ≡ some window
find_window-put_window s sid wid session window found =
    rw (put_window-eq s sid wid session window found) (
      find_window-put_session s sid wid
        (record session { windows = insert wid window session.windows })
      ∙ get-insert_self wid window session.windows)

pub find_pane-put_window :
    (s : Server) (sid wid pid : ℕ) (session : Session) (window : Window)
    → get sid s.sessions ≡ some session
    → find_pane (put_window sid wid window s).sessions sid wid pid ≡ get pid window.panes
find_pane-put_window s sid wid pid session window found =
    rw (find_window-put_window s sid wid session window found) refl
