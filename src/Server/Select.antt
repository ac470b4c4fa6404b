-- ===== src/Server/Select.antt =====
-- Requests that select, rename and resize.
pub mod Place
pub mod Sound
pub mod RenameSound
pub mod ResizeSound
use caterm.Prelude.{ℕ, Bool, not, ◌&&◌, Option, none, some, List, [], ◌∷◌, ◌++◌, any, ◌==◌}
use caterm.Prelude.Int.{ℤ}
use caterm.Text.{Text, text_eq}
use caterm.Outcome.{
  Outcome, ok, err, panic, and_then, expect, ok_or, guard, lift, reads, modify, pure, ◌>>=◌, ◌>>◌,
}
use caterm.BTree.{get, insert, values}
use caterm.Pane
use caterm.Pane.{Pane}
use caterm.Window
use caterm.Window.{Window, sync_layout, pane_missing}
use caterm.Session
use caterm.Session.{Session}
use caterm.Event.{ServerEvent}
use caterm.Command.{CommandResult}
use caterm.Server.State.{
  Server, Handler, CommandOutcome, snapshot_event, find_window, find_pane, session_at, window_at,
  window_missing, put_session, put_window,
}
use caterm.Server.Resolve.{resolve_session_id, resolve_window_id, resolve_pane_id}
use caterm.Server.Create.{session_taken, window_taken, pane_taken}

-- An answer with its own event and the new snapshot behind it.
abbrev pub reply : CommandResult → List ServerEvent → Server → CommandOutcome
reply result events s = record {
  result = result;
  broadcast_events = events ++ snapshot_event s ∷ [];
}

-- `if let Some(window) = session.windows.get_mut(&id) { window.sync_layout() }`
unfoldable pub activate_window : ℕ → Session → Session
activate_window wid session = elim (get wid session.windows) [
  | none ↦ record session { active_window_id = some wid }
  | some window ↦ record session {
    windows = insert wid (sync_layout window) session.windows;
    active_window_id = some wid;
  }
]

unfoldable pub select_window : Text → Text → Handler CommandOutcome
select_window session_target target = do
  session_id ← reads (λ s. resolve_session_id s session_target)
  window_id ← reads (λ s. resolve_window_id s session_id target)
  session ← reads (λ s. session_at s session_id)
  modify (put_session session_id (activate_window window_id session))
  reads (λ s. and_then (expect (find_window s.sessions session_id window_id)) (λ window. ok (
      reply (CommandResult.window_selected session_id (Window.snapshot window))
        (ServerEvent.active_window_changed session_id window_id ∷ []) s)))

unfoldable pub select_pane : Text → Text → Text → Handler CommandOutcome
select_pane session_target window_target target = do
  session_id ← reads (λ s. resolve_session_id s session_target)
  window_id ← reads (λ s. resolve_window_id s session_id window_target)
  pane_id ← reads (λ s. resolve_pane_id s session_id window_id target)
  window ← reads (λ s. window_at s session_id window_id)
  modify (
      put_window session_id window_id
        (record (sync_layout window) { active_pane_id = some pane_id }))
  reads (λ s. and_then (expect (find_pane s.sessions session_id window_id pane_id)) (λ pane. ok (
      reply (CommandResult.pane_selected session_id window_id (Pane.snapshot pane))
        (ServerEvent.active_pane_changed session_id window_id pane_id ∷ []) s)))

-- Another entry has the name.
abbrev pub other_session : ℕ → Text → Session → Bool
other_session id name session = not (session.id == id) && text_eq session.name name

abbrev pub other_window : ℕ → Text → Window → Bool
other_window id name window = not (window.id == id) && text_eq window.name name

abbrev pub other_pane : ℕ → Text → Pane → Bool
other_pane id name pane = not (pane.id == id) && text_eq pane.name name

unfoldable pub rename_session : Text → Text → Handler CommandOutcome
rename_session target name = do
  session_id ← reads (λ s. resolve_session_id s target)
  reads (λ s.
      guard (not (any (other_session session_id name) (values s.sessions))) (session_taken name))
  session ← reads (λ s. session_at s session_id)
  let renamed = record session { name = name }
  modify (put_session session_id renamed)
  reads (λ s. ok (reply (CommandResult.session_renamed (Session.snapshot renamed)) [] s))

unfoldable pub rename_window : Text → Text → Text → Handler CommandOutcome
rename_window session_target target name = do
  session_id ← reads (λ s. resolve_session_id s session_target)
  window_id ← reads (λ s. resolve_window_id s session_id target)
  session ← reads (λ s. session_at s session_id)
  lift (
      guard (not (any (other_window window_id name) (values session.windows)))
        (window_taken session_id name))
  window ← lift (ok_or (get window_id session.windows) (window_missing window_id))
  let renamed = record window { name = name }
  modify (put_window session_id window_id renamed)
  reads (λ s. ok (reply (CommandResult.window_renamed session_id (Window.snapshot renamed)) [] s))

unfoldable pub rename_pane : Text → Text → Text → Text → Handler CommandOutcome
rename_pane session_target window_target target name = do
  session_id ← reads (λ s. resolve_session_id s session_target)
  window_id ← reads (λ s. resolve_window_id s session_id window_target)
  pane_id ← reads (λ s. resolve_pane_id s session_id window_id target)
  window ← reads (λ s. window_at s session_id window_id)
  lift (
      guard (not (any (other_pane pane_id name) (values window.panes))) (pane_taken window_id name))
  pane ← lift (ok_or (get pane_id window.panes) (pane_missing pane_id))
  let renamed = record pane { name = name }
  modify (
      put_window session_id window_id
        (record window { panes = insert pane_id renamed window.panes }))
  reads (λ s.
      ok (reply (CommandResult.pane_renamed session_id window_id (Pane.snapshot renamed)) [] s))

unfoldable pub resize_pane : Text → Text → Text → ℤ → Handler CommandOutcome
resize_pane session_target window_target target delta = do
  session_id ← reads (λ s. resolve_session_id s session_target)
  window_id ← reads (λ s. resolve_window_id s session_id window_target)
  pane_id ← reads (λ s. resolve_pane_id s session_id window_id target)
  window ← reads (λ s. window_at s session_id window_id)
  resized ← lift (Window.resize_pane window pane_id delta)
  modify (put_window session_id window_id resized)
  pane ← lift (expect (get pane_id resized.panes))
  reads
      (λ s. ok (reply (CommandResult.pane_resized session_id window_id (Pane.snapshot pane)) [] s))
