-- ===== src/Server/Restore/RoundTrip.antt =====
-- What a saved state brings back.
use mathlib.Core.Path.{subst}
use caterm.Prelude.{
  ℕ, suc, ◌≡◌, refl, ◌∙◌, sym, ap, none, some, [], ◌∷◌, ◌++◌, map, max, append_assoc_lem,
  append-nil,
}
use caterm.Text.{Text}
use caterm.Outcome.{ok, done}
use caterm.BTree.{BTree, insert, values, Ascends}
use caterm.Pty.{Host, spawn, start_output_pump}
use caterm.Pane
use caterm.Pane.{Pane}
use caterm.Window
use caterm.Window.{Window, as_str}
use caterm.Session
use caterm.Session.{Session}
use caterm.Server.State.{Server, ShellConfig, snapshot, next_id}
use caterm.Server.Valid.{ServerOk}
use caterm.Server.Restore.{
  restore_pane, restore_panes, restored_window, restore_windows, restore_sessions, restore_state,
}
use caterm.Server.Restore.Laws.{parse_layout-as_str}
use caterm.Server.Restore.Keyed.{
  Under, Under-insert, insert-end, Keyed, Keyed-below, GoodWindow, GoodSession, good_session,
}

-- The pane with a new shell and empty buffers.
abbrev pub reopen_pane : (ℕ → ℕ) → Pane → Pane
reopen_pane process pane = record pane {
  pty = record {
    reader = none;
    writer = process pane.id;
    child = some (process pane.id);
    written = [];
  };
  output_history = [];
  pending_output = [];
  dropped_output_bytes = 0;
  exit_code = none;
}

abbrev pub map_values : {A : Type 0} → (A → A) → BTree A → BTree A
map_values f [] = []
map_values f ((k, v) ∷ m) = (k, f v) ∷ map_values f m

abbrev pub reopen_window : (ℕ → ℕ) → Window → Window
reopen_window process window = record window {
  panes = map_values (reopen_pane process) window.panes;
}

abbrev pub reopen_session : (ℕ → ℕ) → Session → Session
reopen_session process session = record session {
  windows = map_values (reopen_window process) session.windows;
}

module _ (host : Host) (config : ShellConfig) (process : ℕ → ℕ)
    (opens : (id : ℕ) (shell : Text) (cols rows : ℕ)
      → host.open_shell id shell cols rows ≡ done (process id)) where
  restore_pane-eq :
      (pane : Pane) → restore_pane host config (Pane.snapshot pane) ≡ ok (reopen_pane process pane)
  unfolding restore_pane Pane.snapshot spawn start_output_pump
  restore_pane-eq pane = rw (opens pane.id pane.shell config.cols config.rows) refl

  restore_panes-eq :
      (low : ℕ) (panes acc : BTree Pane) (next : ℕ)
      → Ascends low panes
      → Keyed (λ p. p.id) (λ _. Unit {0}) panes
      → Under low acc
      → (next' : ℕ) × (restore_panes host config (map Pane.snapshot (values panes)) acc next
          ≡ ok (acc ++ map_values (reopen_pane process) panes, next'))
  unfolding restore_panes values
  restore_panes-eq low [] acc next sorted keyed under =
      (next, ap (λ m. ok (m, next)) (sym (append-nil acc)))
  restore_panes-eq low ((k, pane) ∷ panes) acc next sorted keyed under =
      let fresh = reopen_pane process pane in
      let (next', rest) =
        restore_panes-eq (suc k) panes (acc ++ (k, fresh) ∷ []) (max next (next_id pane.id))
          sorted.1 keyed.2 (Under-insert low k fresh acc under sorted.0) in
      (
        next',
        rw (restore_pane-eq pane) (
            ap
              (λ m.
                restore_panes host config (map Pane.snapshot (values panes)) m
                  (max next (next_id pane.id)))
              (ap (λ j. insert j fresh acc) keyed.0 ∙ insert-end low k fresh acc under sorted.0)
            ∙ rest
            ∙ ap (λ m. ok (m, next'))
                (append_assoc_lem acc ((k, fresh) ∷ []) (map_values (reopen_pane process) panes))),
      )

  window-eq :
      (window : Window)
      → restored_window (Window.snapshot window) (map_values (reopen_pane process) window.panes)
        ≡ reopen_window process window
  unfolding Window.snapshot
  window-eq window =
      ap (λ l. record (reopen_window process window) { layout = l })
        (parse_layout-as_str window.layout)

  restore_windows-eq :
      (low : ℕ) (windows acc : BTree Window) (next_window next_pane : ℕ)
      → Ascends low windows
      → Keyed (λ w. w.id) GoodWindow windows
      → Under low acc
      → (next_window' : ℕ) × (next_pane' : ℕ) × (restore_windows host config
            (map Window.snapshot (values windows))
            acc
            next_window
            next_pane
          ≡ ok (acc ++ map_values (reopen_window process) windows, next_window', next_pane'))
  unfolding restore_windows values Window.snapshot
  restore_windows-eq low [] acc next_window next_pane sorted keyed under =
      (next_window, next_pane, ap (λ m. ok (m, next_window, next_pane)) (sym (append-nil acc)))
  restore_windows-eq low ((k, window) ∷ windows) acc next_window next_pane sorted keyed under =
      let (middle, panes_back) =
        restore_panes-eq 0 window.panes [] next_pane keyed.1.0 keyed.1.1 tt in
      let back = reopen_window process window in
      let counter = max next_window (next_id window.id) in
      let (next_window', next_pane', rest) =
        restore_windows-eq (suc k) windows (acc ++ (k, back) ∷ []) counter middle sorted.1 keyed.2
          (Under-insert low k back acc under sorted.0) in
      (
        next_window',
        next_pane',
        rw panes_back (
            ap
              (λ m.
                restore_windows host config (map Window.snapshot (values windows)) m counter middle)
              (ap (λ w. insert window.id w acc) (window-eq window)
                ∙ ap (λ j. insert j back acc) keyed.0
                ∙ insert-end low k back acc under sorted.0)
            ∙ rest
            ∙ ap (λ m. ok (m, next_window', next_pane'))
                (append_assoc_lem acc ((k, back) ∷ [])
                  (map_values (reopen_window process) windows))),
      )

module _ (host : Host) (process : ℕ → ℕ)
    (opens : (id : ℕ) (shell : Text) (cols rows : ℕ)
      → host.open_shell id shell cols rows ≡ done (process id)) where
  restore_sessions-eq :
      (low : ℕ) (sessions : BTree Session) (s : Server)
      → Ascends low sessions
      → Keyed (λ x. x.id) GoodSession sessions
      → Under low s.sessions
      → (t : Server) × (restore_sessions host (map Session.snapshot (values sessions)) s ≡ ok t)
        × (t.sessions ≡ s.sessions ++ map_values (reopen_session process) sessions)
  unfolding restore_sessions values Session.snapshot
  restore_sessions-eq low [] s sorted keyed under = (s, refl, sym (append-nil s.sessions))
  restore_sessions-eq low ((k, session) ∷ sessions) s sorted keyed under =
      let (next_window, next_pane, windows_back) =
        restore_windows-eq host s.config process opens 0 session.windows [] s.next_window_id
          s.next_pane_id keyed.1.0 keyed.1.1 tt in
      let back = reopen_session process session in
      let grown : insert session.id back s.sessions ≡ s.sessions ++ (k, back) ∷ [] =
        ap (λ j. insert j back s.sessions) keyed.0
        ∙ insert-end low k back s.sessions under sorted.0 in
      let now = record s {
        sessions = insert session.id back s.sessions;
        next_session_id = max s.next_session_id (next_id session.id);
        next_window_id = next_window;
        next_pane_id = next_pane;
      } in
      let (t, rest, same) =
        restore_sessions-eq (suc k) sessions now sorted.1 keyed.2
          (subst (Under (suc k)) (sym grown) (Under-insert low k back s.sessions under sorted.0)) in
      (
        t,
        rw windows_back rest,
        same
            ∙ ap (λ m. m ++ map_values (reopen_session process) sessions) grown
            ∙ append_assoc_lem s.sessions ((k, back) ∷ [])
                (map_values (reopen_session process) sessions),
      )

-- When every shell starts, what `restore_state` makes of the snapshot of a valid server is its
-- hierarchy, the ids, indices, names, sizes, layouts and active entries included, with new shells and
-- empty buffers in the panes.
pub restore_state-snapshot :
    (host : Host) (process : ℕ → ℕ) (s fresh : Server)
    → ((id : ℕ) (shell : Text) (cols rows : ℕ)
        → host.open_shell id shell cols rows ≡ done (process id))
    → ServerOk s
    → (t : Server) × (restore_state host (some (snapshot s)) fresh ≡ ok t)
      × (t.sessions ≡ map_values (reopen_session process) s.sessions)
unfolding restore_state snapshot
restore_state-snapshot host process s fresh opens valid =
    restore_sessions-eq host process opens 0 s.sessions
      (record fresh { sessions = []; next_session_id = 1; next_window_id = 1; next_pane_id = 1 })
      valid.sessions.sorted
      (Keyed-below _ _ 0 s.sessions valid.sessions.sorted (λ k v e.
        let own = valid.sessions.ids k v e in
        (own.0, good_session s.next_window_id s.next_pane_id v own.2)))
      tt
