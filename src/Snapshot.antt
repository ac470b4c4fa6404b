-- ===== src/Snapshot.antt =====
-- The serialised views of the hierarchy (caterm/src/session_manager/snapshot.rs).
use caterm.Prelude.{ℕ, Option, List}
use caterm.Text.{Text}

pub record PaneSnapshot : Type 0 where
  pub id : ℕ
  pub index : ℕ
  pub name : Text
  pub size : ℕ
  pub shell : Text
  pub exit_code : Option ℕ

pub record WindowSnapshot : Type 0 where
  pub id : ℕ
  pub index : ℕ
  pub name : Text
  pub layout : Text
  pub active_pane_id : Option ℕ
  pub active_pane_index : Option ℕ
  pub panes : List PaneSnapshot

pub record SessionSnapshot : Type 0 where
  pub id : ℕ
  pub name : Text
  pub active_window_id : Option ℕ
  pub active_window_index : Option ℕ
  pub windows : List WindowSnapshot

pub record ServerSnapshot : Type 0 where
  pub active_session_id : Option ℕ
  pub active_window_id : Option ℕ
  pub active_pane_id : Option ℕ
  pub sessions : List SessionSnapshot
