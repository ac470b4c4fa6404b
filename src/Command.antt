-- ===== src/Command.antt =====
-- The replies to requests (caterm/src/session_manager/command.rs).
use caterm.Prelude.{ℕ, Bool, true, false, Option, none, some}
use caterm.Text.{Text}
use caterm.ErrorCode.{classify_error}
use caterm.Snapshot.{PaneSnapshot, WindowSnapshot, SessionSnapshot, ServerSnapshot}
use caterm.Event.{protocol_version}

-- The fields stand in the order of the source.
pub data CommandResult : Type 0 where
  session_created : SessionSnapshot → WindowSnapshot → PaneSnapshot → CommandResult
  window_created : ℕ → WindowSnapshot → PaneSnapshot → CommandResult
  pane_created : ℕ → ℕ → PaneSnapshot → CommandResult
  pane_split : ℕ → ℕ → Text → PaneSnapshot → CommandResult
  window_selected : ℕ → WindowSnapshot → CommandResult
  pane_selected : ℕ → ℕ → PaneSnapshot → CommandResult
  session_renamed : SessionSnapshot → CommandResult
  window_renamed : ℕ → WindowSnapshot → CommandResult
  pane_renamed : ℕ → ℕ → PaneSnapshot → CommandResult
  pane_resized : ℕ → ℕ → PaneSnapshot → CommandResult
  session_deleted : ℕ → CommandResult
  window_deleted : ℕ → ℕ → CommandResult
  pane_deleted : ℕ → ℕ → ℕ → CommandResult
  input_accepted : ℕ → ℕ → ℕ → CommandResult
  session_list : ServerSnapshot → CommandResult
  stopped pong : CommandResult

pub record CommandResponse : Type 0 where
  pub version : ℕ
  pub ok : Bool
  pub result : Option CommandResult
  pub error : Option Text
  pub error_code : Option Text

unfoldable pub success : CommandResult → CommandResponse
success result = record {
  version = protocol_version;
  ok = true;
  result = some result;
  error = none;
  error_code = none;
}

unfoldable pub failure : Text → CommandResponse
failure error = record {
  version = protocol_version;
  ok = false;
  result = none;
  error = some error;
  error_code = some (classify_error error);
}
