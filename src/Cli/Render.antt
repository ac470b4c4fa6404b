-- ===== src/Cli/Render.antt =====
-- What the client prints for answers and events (caterm/src/main.rs).
use caterm.Prelude.{
  ◌&&◌, ◌||◌, not, Option, none, map_opt, unwrap_or, [], ◌∷◌, ◌++◌, is_empty, ◌==◌, if◌then◌else◌,
}
use caterm.Text.{Text, codes}
use caterm.Text.Decimal.{to_string}
use caterm.Event.{ServerEvent}
use caterm.Command.{CommandResult, CommandResponse}
use caterm.Cli.View.{format, render_snapshot}

-- `trim_end_matches(['\r', '\n'])`; 13 and 10 are the two.
unfoldable pub trim_line_ends : Text → Text
trim_line_ends [] = []
trim_line_ends (c ∷ s) =
    let rest = trim_line_ends s in if is_empty rest && (c == 13 || c == 10) then [] else c ∷ rest

unfoldable pub render_command_result : CommandResult → Text
unfolding render_snapshot
render_command_result (CommandResult.session_created session window pane) = format (
    codes "Created session "
    ∷ to_string session.id
    ∷ codes " ("
    ∷ session.name
    ∷ codes ")\nCreated pane "
    ∷ to_string pane.index
    ∷ codes ":"
    ∷ to_string pane.id
    ∷ codes " ("
    ∷ pane.name
    ∷ codes ")"
    ∷ [])
render_command_result (CommandResult.window_created session_id window pane) = format (
    codes "Created window "
    ∷ to_string window.index
    ∷ codes ":"
    ∷ to_string window.id
    ∷ codes " ("
    ∷ window.name
    ∷ codes ") in session "
    ∷ to_string session_id
    ∷ codes "\nCreated pane "
    ∷ to_string pane.index
    ∷ codes ":"
    ∷ to_string pane.id
    ∷ codes " ("
    ∷ pane.name
    ∷ codes ") in session "
    ∷ to_string session_id
    ∷ codes ", window "
    ∷ to_string window.id
    ∷ [])
render_command_result (CommandResult.pane_created session_id window_id pane) = format (
    codes "Created pane "
    ∷ to_string pane.index
    ∷ codes ":"
    ∷ to_string pane.id
    ∷ codes " ("
    ∷ pane.name
    ∷ codes ") in session "
    ∷ to_string session_id
    ∷ codes ", window "
    ∷ to_string window_id
    ∷ [])
render_command_result (CommandResult.pane_split session_id window_id layout pane) = format (
    codes "Split window "
    ∷ to_string window_id
    ∷ codes " in session "
    ∷ to_string session_id
    ∷ codes " with "
    ∷ layout
    ∷ codes " layout; created pane "
    ∷ to_string pane.index
    ∷ codes ":"
    ∷ to_string pane.id
    ∷ codes " ("
    ∷ pane.name
    ∷ codes ")"
    ∷ [])
render_command_result (CommandResult.window_selected session_id window) = format (
    codes "Selected window "
    ∷ to_string window.index
    ∷ codes ":"
    ∷ to_string window.id
    ∷ codes " ("
    ∷ window.name
    ∷ codes ") in session "
    ∷ to_string session_id
    ∷ [])
render_command_result (CommandResult.pane_selected session_id window_id pane) = format (
    codes "Selected pane "
    ∷ to_string pane.index
    ∷ codes ":"
    ∷ to_string pane.id
    ∷ codes " ("
    ∷ pane.name
    ∷ codes ") in session "
    ∷ to_string session_id
    ∷ codes ", window "
    ∷ to_string window_id
    ∷ [])
render_command_result (CommandResult.session_renamed session) =
    format (codes "Renamed session " ∷ to_string session.id ∷ codes " to " ∷ session.name ∷ [])
render_command_result (CommandResult.window_renamed session_id window) = format (
    codes "Renamed window "
    ∷ to_string window.index
    ∷ codes ":"
    ∷ to_string window.id
    ∷ codes " to "
    ∷ window.name
    ∷ codes " in session "
    ∷ to_string session_id
    ∷ [])
render_command_result (CommandResult.pane_renamed session_id window_id pane) = format (
    codes "Renamed pane "
    ∷ to_string pane.index
    ∷ codes ":"
    ∷ to_string pane.id
    ∷ codes " to "
    ∷ pane.name
    ∷ codes " in session "
    ∷ to_string session_id
    ∷ codes ", window "
    ∷ to_string window_id
    ∷ [])
render_command_result (CommandResult.pane_resized session_id window_id pane) = format (
    codes "Resized pane "
    ∷ to_string pane.index
    ∷ codes ":"
    ∷ to_string pane.id
    ∷ codes " ("
    ∷ pane.name
    ∷ codes ") to "
    ∷ to_string pane.size
    ∷ codes "% in session "
    ∷ to_string session_id
    ∷ codes ", window "
    ∷ to_string window_id
    ∷ [])
render_command_result (CommandResult.session_deleted session_id) =
    format (codes "Deleted session " ∷ to_string session_id ∷ [])
render_command_result (CommandResult.window_deleted session_id window_id) = format (
    codes "Deleted window "
    ∷ to_string window_id
    ∷ codes " from session "
    ∷ to_string session_id
    ∷ [])
render_command_result (CommandResult.pane_deleted session_id window_id pane_id) = format (
    codes "Deleted pane "
    ∷ to_string pane_id
    ∷ codes " from session "
    ∷ to_string session_id
    ∷ codes ", window "
    ∷ to_string window_id
    ∷ [])
render_command_result (CommandResult.input_accepted session_id window_id pane_id) = format (
    codes "Accepted input for pane "
    ∷ to_string pane_id
    ∷ codes " in session "
    ∷ to_string session_id
    ∷ codes ", window "
    ∷ to_string window_id
    ∷ [])
render_command_result (CommandResult.session_list snapshot) = render_snapshot snapshot
render_command_result (CommandResult.stopped) = codes "Stopped Caterm daemon"
render_command_result (CommandResult.pong) = codes "Pong"

abbrev pub failure_of : Option Text → Text
failure_of error = unwrap_or error (codes "request failed")

unfoldable pub render_command_response : CommandResponse → Text
unfolding render_command_result
render_command_response response =
    if not response.ok
    then failure_of response.error
    else unwrap_or (map_opt render_command_result response.result) []

unfoldable pub render_event : ServerEvent → Text
unfolding render_snapshot trim_line_ends
render_event (ServerEvent.session_created session) =
    format
      (codes "Created session " ∷ to_string session.id ∷ codes " (" ∷ session.name ∷ codes ")" ∷ [])
render_event (ServerEvent.window_created session_id window) = format (
    codes "Created window "
    ∷ to_string window.index
    ∷ codes ":"
    ∷ to_string window.id
    ∷ codes " ("
    ∷ window.name
    ∷ codes ") in session "
    ∷ to_string session_id
    ∷ [])
render_event (ServerEvent.pane_created session_id window_id pane) = format (
    codes "Created pane "
    ∷ to_string pane.index
    ∷ codes ":"
    ∷ to_string pane.id
    ∷ codes " ("
    ∷ pane.name
    ∷ codes ") in session "
    ∷ to_string session_id
    ∷ codes ", window "
    ∷ to_string window_id
    ∷ [])
render_event (ServerEvent.active_window_changed session_id window_id) = format (
    codes "Active window changed to "
    ∷ to_string window_id
    ∷ codes " in session "
    ∷ to_string session_id
    ∷ [])
render_event (ServerEvent.active_pane_changed session_id window_id pane_id) = format (
    codes "Active pane changed to "
    ∷ to_string pane_id
    ∷ codes " in session "
    ∷ to_string session_id
    ∷ codes ", window "
    ∷ to_string window_id
    ∷ [])
render_event (ServerEvent.session_deleted session_id) =
    format (codes "Deleted session " ∷ to_string session_id ∷ [])
render_event (ServerEvent.window_deleted session_id window_id) = format (
    codes "Deleted window "
    ∷ to_string window_id
    ∷ codes " from session "
    ∷ to_string session_id
    ∷ [])
render_event (ServerEvent.pane_deleted session_id window_id pane_id) = format (
    codes "Deleted pane "
    ∷ to_string pane_id
    ∷ codes " from session "
    ∷ to_string session_id
    ∷ codes ", window "
    ∷ to_string window_id
    ∷ [])
render_event (ServerEvent.pty_output session_id window_id pane_id output) = trim_line_ends output
render_event (ServerEvent.pty_output_snapshot session_id window_id pane_id output) =
    trim_line_ends output
render_event (ServerEvent.pane_exited session_id window_id pane_id exit_code) = format (
    codes "Pane "
    ∷ to_string pane_id
    ∷ codes " in session "
    ∷ to_string session_id
    ∷ codes ", window "
    ∷ to_string window_id
    ∷ codes " exited with code "
    ∷ to_string exit_code
    ∷ [])
render_event (ServerEvent.session_list sessions) = render_snapshot (record {
  active_session_id = none;
  active_window_id = none;
  active_pane_id = none;
  sessions = sessions;
})
render_event (ServerEvent.snapshot snapshot) = render_snapshot snapshot
render_event (ServerEvent.pong) = codes "Pong"
render_event (ServerEvent.error code message) = codes "Error: " ++ message
