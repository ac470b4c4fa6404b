-- ===== src/Event.antt =====
-- The events that the server sends to attached clients (caterm/src/session_manager/event.rs and
-- protocol.rs).
use caterm.Prelude.{ℕ, List}
use caterm.Text.{Text}
use caterm.ErrorCode.{classify_error}
use caterm.Snapshot.{PaneSnapshot, WindowSnapshot, SessionSnapshot, ServerSnapshot}

abbrev pub protocol_version : ℕ
protocol_version = 1

-- The fields stand in the order of the source: session id, window id, pane id, then the rest.
pub data ServerEvent : Type 0 where
  session_list : List SessionSnapshot → ServerEvent
  session_created : SessionSnapshot → ServerEvent
  window_created : ℕ → WindowSnapshot → ServerEvent
  pane_created : ℕ → ℕ → PaneSnapshot → ServerEvent
  active_window_changed : ℕ → ℕ → ServerEvent
  active_pane_changed : ℕ → ℕ → ℕ → ServerEvent
  session_deleted : ℕ → ServerEvent
  window_deleted : ℕ → ℕ → ServerEvent
  pane_deleted : ℕ → ℕ → ℕ → ServerEvent
  pty_output : ℕ → ℕ → ℕ → Text → ServerEvent
  pty_output_snapshot : ℕ → ℕ → ℕ → Text → ServerEvent
  pane_exited : ℕ → ℕ → ℕ → ℕ → ServerEvent
  snapshot : ServerSnapshot → ServerEvent
  pong : ServerEvent
  error : Text → Text → ServerEvent

pub record EventEnvelope : Type 0 where
  pub version : ℕ
  pub event : ServerEvent

-- `EventEnvelope::new`
unfoldable pub envelope : ServerEvent → EventEnvelope
envelope event = record { version = protocol_version; event = event }

-- `ServerEvent::error`
unfoldable pub error_event : Text → ServerEvent
error_event message = error (classify_error message) message
