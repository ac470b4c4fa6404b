-- ===== src/Server/Delete.antt =====
-- Requests that delete, and the input to a pane.
pub mod Sound
pub mod PaneSound
use caterm.Prelude.{
  ℕ, Bool, not, Option, none, some, List, [], ◌∷◌, ◌++◌, ◌==◌, length, first, is_id, is_some,
  if◌then◌else◌,
}
use caterm.Text.{Text, codes}
use caterm.Text.Decimal.{to_string}
use caterm.Outcome.{
  Outcome, ok, err, panic, and_then, expect, ok_or, guard, lift, reads, gets, modify, pure, ◌>>=◌,
  ◌>>◌,
}
use caterm.BTree.{BTree, get, insert, remove, values, keys}
use caterm.Pty.{Host, PtySession, wait, terminate, write_all}
use caterm.Pane.{Pane}
use caterm.Window
use caterm.Window.{Window, rebalance_pane_sizes, sync_layout, pane_missing}
use caterm.Session.{Session}
use caterm.Event.{ServerEvent}
use caterm.Command.{CommandResult}
use caterm.Server.State.{
  Server, Handler, CommandOutcome, find_window, find_pane, session_at, window_at, session_missing,
  window_missing, put_session, put_window,
}
use caterm.Server.Resolve.{resolve_session_id, resolve_window_id, resolve_pane_id}
use caterm.Server.Client.{broadcast_events}
use caterm.Server.Runtime.{collect_runtime_events}
use caterm.Server.Select.{reply}

-- The loop of `terminate_window`: `terminate` and `wait` on each pane, whatever they answer.
unfoldable pub terminate_panes : Host → BTree Pane → List PtySession
terminate_panes host [] = []
terminate_panes host ((k, pane) ∷ panes) = (wait host pane.pty).1 ∷ terminate_panes host panes

unfoldable pub terminate_window : Host → Window → List PtySession
terminate_window host window = terminate_panes host window.panes

unfoldable pub terminate_windows : Host → BTree Window → List PtySession
terminate_windows host [] = []
terminate_windows host ((k, window) ∷ windows) =
    terminate_window host window ++ terminate_windows host windows

unfoldable pub terminate_session : Host → Session → List PtySession
terminate_session host session = terminate_windows host session.windows

abbrev pub end_all : List PtySession → Server → Server
end_all shells s = record s { ended = s.ended ++ shells }

unfoldable pub delete_session : Host → Text → Handler CommandOutcome
delete_session host target = do
  id ← reads (λ s. resolve_session_id s target)
  session ← reads (λ s. session_at s id)
  modify (λ s. record s { sessions = remove id s.sessions })
  modify (end_all (terminate_session host session))
  gets (reply (CommandResult.session_deleted id) (ServerEvent.session_deleted id ∷ []))

-- The first entry becomes active when the active one is gone.
abbrev pub reselect : {A : Type 0} → Option ℕ → ℕ → BTree A → Option ℕ
reselect active removed rest = if is_id active removed then first (keys rest) else active

abbrev pub drop_window : ℕ → Session → Session
drop_window wid session =
    let rest = remove wid session.windows in
    record session { windows = rest; active_window_id = reselect session.active_window_id wid rest }

unfoldable pub delete_window : Host → Text → Text → Handler CommandOutcome
delete_window host session_target target = do
  session_id ← reads (λ s. resolve_session_id s session_target)
  window_id ← reads (λ s. resolve_window_id s session_id target)
  session ← reads (λ s. session_at s session_id)
  lift (
      guard (not (length session.windows == 1))
        (codes "cannot delete the last window in session " ++ to_string session_id))
  window ← lift (ok_or (get window_id session.windows) (window_missing window_id))
  modify (put_session session_id (drop_window window_id session))
  modify (end_all (terminate_window host window))
  gets (
      reply (CommandResult.window_deleted session_id window_id)
        (ServerEvent.window_deleted session_id window_id ∷ []))

-- The pane is taken out, the others share the space, and the layout follows.
unfoldable pub drop_pane : ℕ → Window → Outcome Window
drop_pane pid window =
    and_then (rebalance_pane_sizes (record window { panes = remove pid window.panes })) (λ balanced.
      let synced = sync_layout balanced in
      ok (record synced { active_pane_id = reselect synced.active_pane_id pid synced.panes }))

-- A shell that cannot be terminated is an error, after the pane has been removed.
unfoldable pub delete_pane : Host → Text → Text → Text → Handler CommandOutcome
delete_pane host session_target window_target target = do
  session_id ← reads (λ s. resolve_session_id s session_target)
  window_id ← reads (λ s. resolve_window_id s session_id window_target)
  pane_id ← reads (λ s. resolve_pane_id s session_id window_id target)
  window ← reads (λ s. window_at s session_id window_id)
  lift (
      guard (not (length window.panes == 1))
        (codes "cannot delete the last pane in window " ++ to_string window_id))
  pane ← lift (ok_or (get pane_id window.panes) (pane_missing pane_id))
  changed ← lift (drop_pane pane_id window)
  modify (put_window session_id window_id changed)
  lift (terminate host pane.pty)
  modify (end_all ((wait host pane.pty).1 ∷ []))
  gets (
      reply (CommandResult.pane_deleted session_id window_id pane_id)
        (ServerEvent.pane_deleted session_id window_id pane_id ∷ []))

abbrev pub has_exited : ℕ → Text
has_exited id = codes "pane " ++ (to_string id ++ codes " has already exited")

-- `pane.pty` after the write, in place.
unfoldable pub put_pty : ℕ → ℕ → ℕ → PtySession → Pane → Server → Server
put_pty sid wid pid pty pane s = elim (find_window s.sessions sid wid) [
  | none ↦ s
  | some window ↦
      put_window sid wid
        (record window { panes = insert pid (record pane { pty = pty }) window.panes }) s
]

-- What the shell has answered after the write is sent at once; poll 1 is the second one of a request.
unfoldable pub send_input : Host → Text → Text → Text → Text → Handler CommandOutcome
send_input host session_target window_target pane_target input = do
  session_id ← reads (λ s. resolve_session_id s session_target)
  window_id ← reads (λ s. resolve_window_id s session_id window_target)
  pane_id ← reads (λ s. resolve_pane_id s session_id window_id pane_target)
  pane ←
      reads (λ s. ok_or (find_pane s.sessions session_id window_id pane_id) (pane_missing pane_id))
  lift (guard (not (is_some pane.exit_code)) (has_exited pane_id))
  pty ← lift (write_all host pane.pty input)
  modify (put_pty session_id window_id pane_id pty pane)
  events ← collect_runtime_events (host.poll 1)
  modify (broadcast_events events)
  pure (record {
    result = CommandResult.input_accepted session_id window_id pane_id;
    broadcast_events = [];
  })
