-- ===== src/ErrorCode.antt =====
-- The error codes that clients see (caterm/src/session_manager/error.rs).
pub mod Messages
use caterm.Prelude.{Bool, ◌&&◌, ◌||◌, if◌then◌else◌}
use caterm.Text.{Text, codes, starts_with, ends_with, contains}

unfoldable pub classify_error : Text → Text
classify_error message =
    if starts_with (codes "session not found:") message
      || (starts_with (codes "session ") message && ends_with (codes " not found") message)
    then codes "session_not_found"
    else if starts_with (codes "window not found") message
        || (starts_with (codes "window ") message && ends_with (codes " not found") message)
    then codes "window_not_found"
    else if starts_with (codes "pane not found") message
        || (starts_with (codes "pane ") message && ends_with (codes " not found") message)
    then codes "pane_not_found"
    else if starts_with (codes "session name already exists:") message
    then codes "duplicate_session_name"
    else if starts_with (codes "window name already exists in session") message
    then codes "duplicate_window_name"
    else if starts_with (codes "pane name already exists in window") message
    then codes "duplicate_pane_name"
    else if starts_with (codes "cannot delete the last window in session") message
    then codes "last_window"
    else if starts_with (codes "cannot delete the last pane in window") message
    then codes "last_pane"
    else if starts_with (codes "cannot resize a window with fewer than 2 panes") message
    then codes "resize_single_pane"
    else if starts_with (codes "resize would exceed the minimum pane size") message
    then codes "resize_limit"
    else if starts_with (codes "pane ") message && ends_with (codes " has already exited") message
    then codes "pane_exited"
    else if starts_with (codes "protocol version mismatch:") message
    then codes "protocol_mismatch"
    else if contains (codes "failed to connect to Caterm server") message
    then codes "server_unreachable"
    else codes "internal_error"
