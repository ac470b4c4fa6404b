-- ===== src/Cli/View.antt =====
-- How the client prints a snapshot (`render_snapshot`, caterm/src/main.rs).
use caterm.Prelude.{
  ℕ, ◌||◌, Option, is_some, map_opt, unwrap_or, List, [], ◌∷◌, ◌++◌, is_empty, if◌then◌else◌,
}
use caterm.Text.{Text, codes}
use caterm.Text.Decimal.{to_string}
use caterm.Snapshot.{PaneSnapshot, WindowSnapshot, SessionSnapshot, ServerSnapshot}
use caterm.Cli.Parse.{lines_of}

-- `format!`, on the parts in their order.
abbrev pub format : List Text → Text
format [] = []
format (part ∷ parts) = part ++ format parts

-- The number, or a dash.
abbrev pub or_dash : Option ℕ → Text
or_dash n = unwrap_or (map_opt to_string n) (codes "-")

unfoldable pub pane_line : PaneSnapshot → Text
pane_line pane = format (
    codes "    pane "
    ∷ to_string pane.index
    ∷ codes ":"
    ∷ to_string pane.id
    ∷ codes " ("
    ∷ pane.name
    ∷ codes ") size="
    ∷ to_string pane.size
    ∷ codes " shell="
    ∷ pane.shell
    ∷ unwrap_or (map_opt (λ (code : ℕ). codes " exit=" ++ to_string code) pane.exit_code) []
    ∷ [])

unfoldable pub window_line : WindowSnapshot → Text
window_line window = format (
    codes "  window "
    ∷ to_string window.index
    ∷ codes ":"
    ∷ to_string window.id
    ∷ codes " ("
    ∷ window.name
    ∷ codes ") layout="
    ∷ window.layout
    ∷ codes " active_pane="
    ∷ or_dash window.active_pane_index
    ∷ [])

unfoldable pub session_line : SessionSnapshot → Text
session_line session = format (
    codes "session "
    ∷ to_string session.id
    ∷ codes " ("
    ∷ session.name
    ∷ codes ") active_window="
    ∷ or_dash session.active_window_index
    ∷ [])

-- The loops over the panes, the windows and the sessions, in front of the lines behind them.
unfoldable pub pane_lines : List PaneSnapshot → List Text → List Text
pane_lines [] later = later
pane_lines (pane ∷ panes) later = pane_line pane ∷ pane_lines panes later

unfoldable pub window_lines : List WindowSnapshot → List Text → List Text
unfolding pane_lines
window_lines [] later = later
window_lines (window ∷ windows) later =
    window_line window ∷ pane_lines window.panes (window_lines windows later)

unfoldable pub session_lines : List SessionSnapshot → List Text
unfolding window_lines
session_lines [] = []
session_lines (session ∷ sessions) =
    session_line session ∷ window_lines session.windows (session_lines sessions)

-- The line of the client's own active entries, where there are any.
abbrev pub active_lines : ServerSnapshot → List Text
active_lines snapshot =
    if is_some snapshot.active_session_id
      || (is_some snapshot.active_window_id || is_some snapshot.active_pane_id)
    then format (
        codes "client_active session="
        ∷ or_dash snapshot.active_session_id
        ∷ codes " window="
        ∷ or_dash snapshot.active_window_id
        ∷ codes " pane="
        ∷ or_dash snapshot.active_pane_id
        ∷ [])
      ∷ []
    else []

unfoldable pub render_snapshot : ServerSnapshot → Text
unfolding session_lines
render_snapshot snapshot =
    if is_empty snapshot.sessions
    then codes "No active sessions"
    else lines_of (active_lines snapshot ++ (codes "Sessions:" ∷ session_lines snapshot.sessions))
