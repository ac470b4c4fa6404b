-- ===== src/Server/Restore.antt =====
-- The end and the start of a daemon: what is left behind, and what a saved state brings back.
pub mod Laws
pub mod Keyed
pub mod Counters
pub mod RoundTrip
pub mod Valid
use caterm.Prelude.{
  ℕ, Bool, not, Option, none, some, List, [], ◌∷◌, max, is_empty, first, if◌then◌else◌,
}
use caterm.Text.{Text, codes, text_eq}
use caterm.Outcome.{Outcome, ok, err, panic, and_then, from_answer}
use caterm.BTree.{BTree, insert, keys, contains_key}
use caterm.Snapshot.{PaneSnapshot, WindowSnapshot, SessionSnapshot, ServerSnapshot}
use caterm.Pty.{Host, spawn, start_output_pump}
use caterm.Pane.{Pane}
use caterm.Window.{Window, WindowLayout, single, tiled, horizontal, vertical}
use caterm.Session.{Session}
use caterm.Server.State.{Server, ShellConfig, next_id, snapshot}
use caterm.Server.Dispatch.{Daemon, delete_all}

-- `retain` on a map
unfoldable pub retain_values : {A : Type 0} → (A → Bool) → BTree A → BTree A
retain_values p [] = []
retain_values p ((k, v) ∷ m) = let rest = retain_values p m in if p v then (k, v) ∷ rest else rest

-- `is_some_and(|id| !contains_key(id))`
abbrev pub dangling : {A : Type 0} → Option ℕ → BTree A → Bool
dangling none m = Bool.false
dangling (some id) m = not (contains_key id m)

abbrev pub window_in_use : Window → Bool
window_in_use window = not (is_empty window.panes)

abbrev pub session_in_use : Session → Bool
session_in_use session = not (is_empty session.windows)

abbrev pub prune_session : Session → Session
prune_session session =
    let kept = retain_values window_in_use session.windows in
    record session {
      windows = kept;
      active_window_id =
          if dangling session.active_window_id kept
          then first (keys kept)
          else session.active_window_id;
    }

unfoldable pub prune_sessions : BTree Session → BTree Session
prune_sessions [] = []
prune_sessions ((k, session) ∷ sessions) = (k, prune_session session) ∷ prune_sessions sessions

unfoldable pub prune_empty_containers : BTree Session → BTree Session
prune_empty_containers sessions = retain_values session_in_use (prune_sessions sessions)

unfoldable pub shutdown_all : Host → Server → Server
shutdown_all host s =
    let cleared = delete_all host (keys s.sessions) s in
    record cleared { sessions = prune_empty_containers cleared.sessions }

unfoldable pub parse_layout : Text → WindowLayout
parse_layout layout =
    if text_eq layout (codes "horizontal")
    then horizontal
    else if text_eq layout (codes "vertical")
    then vertical
    else if text_eq layout (codes "tiled")
    then tiled
    else single

unfoldable pub restore_pane : Host → ShellConfig → PaneSnapshot → Outcome Pane
restore_pane host config saved =
    and_then (spawn host saved.id saved.shell config.cols config.rows) (λ opened.
      and_then (start_output_pump opened) (λ pty. ok (record {
        id = saved.id;
        index = saved.index;
        name = saved.name;
        size = saved.size;
        shell = saved.shell;
        pty = pty;
        output_history = [];
        pending_output = [];
        dropped_output_bytes = 0;
        exit_code = none;
      })))

-- The loops carry the map that is built and the counters of ids.
unfoldable pub restore_panes :
    Host → ShellConfig → List PaneSnapshot → BTree Pane → ℕ → Outcome (BTree Pane × ℕ)
restore_panes host config [] panes next_pane = ok (panes, next_pane)
restore_panes host config (saved ∷ rest) panes next_pane =
    and_then (restore_pane host config saved) (λ pane.
      restore_panes host config rest (insert pane.id pane panes) (max next_pane (next_id pane.id)))

abbrev pub restored_window : WindowSnapshot → BTree Pane → Window
restored_window saved panes = record {
  id = saved.id;
  index = saved.index;
  name = saved.name;
  layout = parse_layout saved.layout;
  panes = panes;
  active_pane_id = saved.active_pane_id;
}

unfoldable pub restore_windows :
    Host → ShellConfig → List WindowSnapshot → BTree Window → ℕ → ℕ → Outcome (BTree Window × ℕ × ℕ)
restore_windows host config [] windows next_window next_pane = ok (windows, next_window, next_pane)
restore_windows host config (saved ∷ rest) windows next_window next_pane =
    and_then (restore_panes host config saved.panes [] next_pane) (λ built.
      restore_windows host config rest (insert saved.id (restored_window saved built.0) windows)
        (max next_window (next_id saved.id)) built.1)

abbrev pub restored_session : SessionSnapshot → BTree Window → Session
restored_session saved windows = record {
  id = saved.id;
  name = saved.name;
  windows = windows;
  active_window_id = saved.active_window_id;
}

unfoldable pub restore_sessions : Host → List SessionSnapshot → Server → Outcome Server
restore_sessions host [] s = ok s
restore_sessions host (saved ∷ rest) s =
    and_then (restore_windows host s.config saved.windows [] s.next_window_id s.next_pane_id)
      (λ built. restore_sessions host rest (record s {
        sessions = insert saved.id (restored_session saved built.0) s.sessions;
        next_session_id = max s.next_session_id (next_id saved.id);
        next_window_id = built.1;
        next_pane_id = built.2;
      }))

-- `restore_state`, with what `read_state` has found. An error ends the daemon, and the sessions that
-- were opened before it are not kept here.
unfoldable pub restore_state : Host → Option ServerSnapshot → Server → Outcome Server
restore_state host none s = ok s
restore_state host (some saved) s =
    restore_sessions host saved.sessions
      (record s { sessions = []; next_session_id = 1; next_window_id = 1; next_pane_id = 1 })

-- `restore_state` and `persist_state`, as `run` calls them at its start; `file` is the state file.
unfoldable pub start_server : Host → Option ServerSnapshot → Server → Outcome Daemon
unfolding restore_state
start_server host file s = and_then (restore_state host file s) (λ t.
    and_then (from_answer host.save)
      (λ saved. ok (record { server = t; state_file = some (snapshot t) })))
