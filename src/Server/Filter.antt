-- ===== src/Server/Filter.antt =====
-- What a client that is attached to a part of the hierarchy may see.
pub mod Visible
use caterm.Prelude.{
  ℕ, Bool, true, false, not, ◌&&◌, ◌||◌, Option, none, some, List, map, any, retain, first,
  is_empty, ◌==◌, map_opt, filter_opt,
}
use caterm.Snapshot.{PaneSnapshot, WindowSnapshot, SessionSnapshot, ServerSnapshot}
use caterm.Event.{
  ServerEvent, session_list, session_created, window_created, pane_created, active_window_changed,
  active_pane_changed, session_deleted, window_deleted, pane_deleted, pty_output,
  pty_output_snapshot, pane_exited, snapshot, pong, error,
}
use caterm.Server.State.{AttachFilter}

-- `filter.is_none() || filter == Some(id)`
abbrev pub admits : Option ℕ → ℕ → Bool
admits none id = true
admits (some wanted) id = wanted == id

unfoldable pub matches_session : AttachFilter → ℕ → Bool
matches_session filter sid = admits filter.session_id sid

unfoldable pub matches_window : AttachFilter → ℕ → ℕ → Bool
matches_window filter sid wid = matches_session filter sid && admits filter.window_id wid

unfoldable pub matches_pane : AttachFilter → ℕ → ℕ → ℕ → Bool
matches_pane filter sid wid pid = matches_window filter sid wid && admits filter.pane_id pid

-- The first stage of `filter_snapshot`.
unfoldable pub keep_session : Option ℕ → List SessionSnapshot → List SessionSnapshot
keep_session none sessions = sessions
keep_session (some sid) sessions = retain (λ session. session.id == sid) sessions

abbrev pub has_windows : SessionSnapshot → Bool
has_windows session = not (is_empty session.windows)

abbrev pub only_window : ℕ → SessionSnapshot → SessionSnapshot
only_window wid session =
    let kept = retain (λ window. window.id == wid) session.windows in
    record session {
      windows = kept;
      active_window_id = filter_opt (λ active. active == wid) session.active_window_id;
      active_window_index = map_opt (λ window. window.index) (first kept);
    }

unfoldable pub keep_window : Option ℕ → List SessionSnapshot → List SessionSnapshot
keep_window none sessions = sessions
keep_window (some wid) sessions = retain has_windows (map (only_window wid) sessions)

abbrev pub only_pane : ℕ → WindowSnapshot → WindowSnapshot
only_pane pid window =
    let kept = retain (λ pane. pane.id == pid) window.panes in
    record window {
      panes = kept;
      active_pane_id = filter_opt (λ active. active == pid) window.active_pane_id;
      active_pane_index = map_opt (λ pane. pane.index) (first kept);
    }

abbrev pub has_panes : WindowSnapshot → Bool
has_panes window = not (is_empty window.panes)

abbrev pub only_pane_windows : ℕ → SessionSnapshot → SessionSnapshot
only_pane_windows pid session =
    let kept = retain has_panes (map (only_pane pid) session.windows) in
    record session {
      windows = kept;
      active_window_id = map_opt (λ window. window.id) (first kept);
      active_window_index = map_opt (λ window. window.index) (first kept);
    }

unfoldable pub keep_pane : Option ℕ → List SessionSnapshot → List SessionSnapshot
keep_pane none sessions = sessions
keep_pane (some pid) sessions = retain has_windows (map (only_pane_windows pid) sessions)

unfoldable pub filter_snapshot : ServerSnapshot → AttachFilter → ServerSnapshot
filter_snapshot view filter = record view {
  sessions =
      keep_pane filter.pane_id
        (keep_window filter.window_id (keep_session filter.session_id view.sessions));
}

unfoldable pub matches_event : AttachFilter → ServerEvent → Bool
matches_event filter (session_created session) = matches_session filter session.id
matches_event filter (window_created sid window) = matches_window filter sid window.id
matches_event filter (pane_created sid wid pane) = matches_pane filter sid wid pane.id
matches_event filter (active_window_changed sid wid) = matches_window filter sid wid
matches_event filter (active_pane_changed sid wid pid) = matches_pane filter sid wid pid
matches_event filter (session_deleted sid) = matches_session filter sid
matches_event filter (window_deleted sid wid) = matches_window filter sid wid
matches_event filter (pane_deleted sid wid pid) = matches_pane filter sid wid pid
matches_event filter (pty_output sid wid pid text) = matches_pane filter sid wid pid
matches_event filter (pty_output_snapshot sid wid pid text) = matches_pane filter sid wid pid
matches_event filter (pane_exited sid wid pid code) = matches_pane filter sid wid pid
matches_event filter (session_list sessions) =
    any (λ session. admits filter.session_id session.id) sessions
matches_event filter (snapshot view) = not (is_empty (filter_snapshot view filter).sessions)
matches_event filter pong = true
matches_event filter (error code message) = true
