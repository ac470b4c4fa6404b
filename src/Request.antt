-- ===== src/Request.antt =====
-- The requests of the clients (caterm/src/session_manager/request.rs).
use caterm.Prelude.{Option}
use caterm.Prelude.Int.{ℤ}
use caterm.Text.{Text}

-- The fields stand in the order of the source: session, window, target or pane, then the rest.
pub data SessionRequest : Type 0 where
  attach : Option Text → Option Text → Option Text → SessionRequest
  create_session : Option Text → SessionRequest
  create_window : Text → Option Text → SessionRequest
  create_pane : Text → Text → Option Text → SessionRequest
  split_horizontal : Text → Text → Option Text → SessionRequest
  split_vertical : Text → Text → Option Text → SessionRequest
  select_window : Text → Text → SessionRequest
  select_pane : Text → Text → Text → SessionRequest
  rename_session : Text → Text → SessionRequest
  rename_window : Text → Text → Text → SessionRequest
  rename_pane : Text → Text → Text → Text → SessionRequest
  resize_pane : Text → Text → Text → ℤ → SessionRequest
  delete_session : Text → SessionRequest
  delete_window : Text → Text → SessionRequest
  delete_pane : Text → Text → Text → SessionRequest
  send_input : Text → Text → Text → Text → SessionRequest
  list stop ping : SessionRequest
