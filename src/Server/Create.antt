-- ===== src/Server/Create.antt =====
-- Requests that create sessions, windows and panes.
pub mod Sound
pub mod PaneSound
pub mod WindowSound
use caterm.Prelude.{
  ℕ, Bool, not, Option, none, some, List, [], ◌∷◌, ◌++◌, any, unwrap_or, and_then as and_then_opt,
}
use caterm.Text.{Text, codes, text_eq}
use caterm.Text.Decimal.{to_string}
use caterm.Outcome.{
  Outcome, ok, err, panic, and_then, expect, guard, lift, reads, gets, modify, pure, ◌>>=◌, ◌>>◌,
}
use caterm.BTree.{BTree, get, insert, values}
use caterm.Pty.{Host, PtySession, spawn, start_output_pump}
use caterm.Pane
use caterm.Pane.{Pane}
use caterm.Window
use caterm.Window.{
  Window, WindowLayout, single, as_str, next_pane_index, rebalance_pane_sizes, set_split_layout,
  sync_layout,
}
use caterm.Session
use caterm.Session.{Session, next_window_index}
use caterm.Event.{ServerEvent}
use caterm.Command.{CommandResult}
use caterm.Server.State.{
  Server, ShellConfig, Handler, CommandOutcome, next_id, snapshot_event, find_window, find_pane,
  session_at, window_at, put_session, put_window,
}
use caterm.Server.Resolve.{resolve_session_id, resolve_window_id}

unfoldable pub open_pane : Host → ShellConfig → ℕ → Text → ℕ → Outcome Pane
open_pane host config id name index =
    and_then (spawn host id config.shell config.cols config.rows) (λ opened.
      and_then (start_output_pump opened) (λ pty. ok (record {
        id = id;
        index = index;
        name = name;
        size = 100;
        shell = config.shell;
        pty = pty;
        output_history = [];
        pending_output = [];
        dropped_output_bytes = 0;
        exit_code = none;
      })))

-- The id is used up also when the shell does not start.
unfoldable pub spawn_pane : Host → Text → ℕ → Handler Pane
spawn_pane host name index = do
  id ← gets (λ s. s.next_pane_id)
  modify (λ s. record s { next_pane_id = next_id id })
  reads (λ s. open_pane host s.config id name index)

abbrev pub numbered : Text → ℕ → Text
numbered prefix n = prefix ++ to_string n

-- A window of one pane, which is active.
abbrev pub window_of : ℕ → ℕ → Text → Pane → Window
window_of id index name pane = record {
  id = id;
  index = index;
  name = name;
  layout = single;
  panes = insert pane.id pane [];
  active_pane_id = some pane.id;
}

abbrev pub session_of : ℕ → Text → Window → Session
session_of id name window = record {
  id = id;
  name = name;
  windows = insert window.id window [];
  active_window_id = some window.id;
}

abbrev pub named_session : Text → Session → Bool
named_session name session = text_eq session.name name

abbrev pub named_window : Text → Window → Bool
named_window name window = text_eq window.name name

abbrev pub named_pane : Text → Pane → Bool
named_pane name pane = text_eq pane.name name

abbrev pub session_taken : Text → Text
session_taken name = codes "session name already exists: " ++ name

abbrev pub window_taken : ℕ → Text → Text
window_taken sid name =
    codes "window name already exists in session " ++ (to_string sid ++ (codes ": " ++ name))

abbrev pub pane_taken : ℕ → Text → Text
pane_taken wid name =
    codes "pane name already exists in window " ++ (to_string wid ++ (codes ": " ++ name))

-- The lookups of what was just created.
unfoldable pub report_session : ℕ → ℕ → ℕ → Server → Outcome CommandOutcome
report_session id window_id pane_id s = and_then (expect (get id s.sessions)) (λ session.
    and_then (expect (find_window s.sessions id window_id)) (λ window.
      and_then (expect (find_pane s.sessions id window_id pane_id)) (λ pane. ok (record {
        result =
            CommandResult.session_created (Session.snapshot session) (Window.snapshot window)
              (Pane.snapshot pane);
        broadcast_events =
            ServerEvent.session_created (Session.snapshot session)
            ∷ ServerEvent.pane_created id window_id (Pane.snapshot pane)
            ∷ snapshot_event s
            ∷ [];
      }))))

unfoldable pub create_session : Host → Option Text → Handler CommandOutcome
create_session host name = do
  id ← gets (λ s. s.next_session_id)
  modify (λ s. record s { next_session_id = next_id id })
  let session_name = unwrap_or name (numbered (codes "session-") id)
  reads (λ s.
      guard (not (any (named_session session_name) (values s.sessions)))
        (session_taken session_name))
  window_id ← gets (λ s. s.next_window_id)
  modify (λ s. record s { next_window_id = next_id window_id })
  number ← gets (λ s. s.next_pane_id)
  pane ← spawn_pane host (numbered (codes "pane-") number) 0
  let window = window_of window_id 0 (numbered (codes "window-") 0) pane
  modify (put_session id (session_of id session_name window))
  reads (report_session id window_id pane.id)

unfoldable pub report_window : ℕ → ℕ → ℕ → Server → Outcome CommandOutcome
report_window session_id window_id pane_id s =
    and_then (expect (find_window s.sessions session_id window_id)) (λ window.
      and_then (expect (find_pane s.sessions session_id window_id pane_id)) (λ pane. ok (record {
        result =
            CommandResult.window_created session_id (Window.snapshot window) (Pane.snapshot pane);
        broadcast_events =
            ServerEvent.window_created session_id (Window.snapshot window)
            ∷ ServerEvent.pane_created session_id window_id (Pane.snapshot pane)
            ∷ snapshot_event s
            ∷ [];
      })))

-- `session.windows.insert(..)` and `session.active_window_id = Some(..)`
abbrev pub add_window : Session → Window → Session
add_window session window = record session {
  windows = insert window.id window session.windows;
  active_window_id = some window.id;
}

unfoldable pub create_window : Host → Text → Option Text → Handler CommandOutcome
create_window host session_target name = do
  session_id ← reads (λ s. resolve_session_id s session_target)
  window_id ← gets (λ s. s.next_window_id)
  modify (λ s. record s { next_window_id = next_id window_id })
  session ← reads (λ s. session_at s session_id)
  let window_index = next_window_index session
  let window_name = unwrap_or name (numbered (codes "window-") window_index)
  lift (
      guard (not (any (named_window window_name) (values session.windows)))
        (window_taken session_id window_name))
  number ← gets (λ s. s.next_pane_id)
  pane ← spawn_pane host (numbered (codes "pane-") number) 0
  let window = window_of window_id window_index window_name pane
  current ← reads (λ s. session_at s session_id)
  modify (put_session session_id (add_window current window))
  reads (report_window session_id window_id pane.id)

-- The layout after a new pane: a split asks for one.
abbrev pub relayout : Option WindowLayout → Window → Window
relayout none window = sync_layout window
relayout (some layout) window = set_split_layout window layout

-- The changes of `create_pane_with_layout` to the window.
unfoldable pub add_pane : Option WindowLayout → Pane → Window → Outcome Window
add_pane layout pane window =
    and_then
      (rebalance_pane_sizes
        (record window { active_pane_id = some pane.id; panes = insert pane.id pane window.panes }))
      (λ balanced. ok (relayout layout balanced))

abbrev pub pane_result : Option WindowLayout → ℕ → ℕ → Pane → CommandResult
pane_result none session_id window_id pane =
    CommandResult.pane_created session_id window_id (Pane.snapshot pane)
pane_result (some layout) session_id window_id pane =
    CommandResult.pane_split session_id window_id (as_str layout) (Pane.snapshot pane)

unfoldable pub report_pane : Option WindowLayout → ℕ → ℕ → ℕ → Server → Outcome CommandOutcome
report_pane layout session_id window_id pane_id s =
    and_then (expect (find_pane s.sessions session_id window_id pane_id)) (λ pane. ok (record {
      result = pane_result layout session_id window_id pane;
      broadcast_events =
          ServerEvent.pane_created session_id window_id (Pane.snapshot pane)
          ∷ snapshot_event s
          ∷ [];
    }))

unfoldable pub create_pane_with_layout :
    Host → Text → Text → Option Text → Option WindowLayout → Handler CommandOutcome
create_pane_with_layout host session_target window_target name layout = do
  session_id ← reads (λ s. resolve_session_id s session_target)
  window_id ← reads (λ s. resolve_window_id s session_id window_target)
  pane_id ← gets (λ s. s.next_pane_id)
  let pane_name = unwrap_or name (numbered (codes "pane-") pane_id)
  window ← reads (λ s. window_at s session_id window_id)
  let pane_index = next_pane_index window
  lift (
      guard (not (any (named_pane pane_name) (values window.panes)))
        (pane_taken window_id pane_name))
  pane ← spawn_pane host pane_name pane_index
  current ← reads (λ s. window_at s session_id window_id)
  changed ← lift (add_pane layout pane current)
  modify (put_window session_id window_id changed)
  reads (report_pane layout session_id window_id pane_id)

unfoldable pub create_pane : Host → Text → Text → Option Text → Handler CommandOutcome
create_pane host session_target window_target name =
    create_pane_with_layout host session_target window_target name none

unfoldable pub split_pane : Host → Text → Text → Option Text → WindowLayout → Handler CommandOutcome
split_pane host session_target window_target name layout =
    create_pane_with_layout host session_target window_target name (some layout)
