-- ===== src/Server/Runtime.antt =====
-- The periodic collection of output and exits from all panes.
pub mod Valid
use caterm.Prelude.{
  ℕ, Bool, Option, none, some, List, [], ◌∷◌, ◌++◌, if◌then◌else◌, is_empty, is_some,
}
use caterm.Text.{Text}
use caterm.Text.Utf8.{from_utf8_lossy}
use caterm.Outcome.{Outcome, ok, err, panic, and_then}
use caterm.BTree.{BTree}
use caterm.Pty.{Poll, try_wait}
use caterm.Pane.{Pane, enqueue_output, take_output_chunk}
use caterm.Window.{Window}
use caterm.Session.{Session}
use caterm.Event.{ServerEvent, pty_output, pane_exited}
use caterm.Server.State.{Server, Handler}

-- A call that reports events and leaves its object changed, also when it fails half way.
abbrev pub Collected : Type 0 → Type 0
Collected A = Outcome (List ServerEvent) × A

unfoldable pub receive_chunks : List (List ℕ) → Pane → Outcome Pane
receive_chunks [] pane = ok pane
receive_chunks (chunk ∷ chunks) pane =
    let skipped = receive_chunks chunks pane in
    let taken = and_then (enqueue_output pane (from_utf8_lossy chunk)) (receive_chunks chunks) in
    if is_empty chunk then skipped else taken

abbrev pub output_event : ℕ → ℕ → ℕ → Option Text → List ServerEvent
output_event sid wid pid none = []
output_event sid wid pid (some text) = pty_output sid wid pid text ∷ []

-- The answer of `try_wait`, asked only while no exit is recorded.
abbrev pub note_exit : ℕ → ℕ → ℕ → Outcome (Option ℕ) → List ServerEvent → Pane → Collected Pane
note_exit sid wid pid (ok none) events pane = (ok events, pane)
note_exit sid wid pid (ok (some code)) events pane =
    (ok (events ++ pane_exited sid wid pid code ∷ []), record pane { exit_code = some code })
note_exit sid wid pid (err message) events pane = (err message, pane)
note_exit sid wid pid panic events pane = (panic, pane)

abbrev pub emit_and_check : Poll → ℕ → ℕ → ℕ → Outcome (Option Text × Pane) → Pane → Collected Pane
emit_and_check poll sid wid pid (ok (text, pane)) old =
    let events = output_event sid wid pid text in
    if is_some pane.exit_code
    then (ok events, pane)
    else note_exit sid wid pid (try_wait poll pane.pty) events pane
emit_and_check poll sid wid pid (err message) old = (err message, old)
emit_and_check poll sid wid pid panic old = (panic, old)

unfoldable pub collect_pane : Poll → ℕ → ℕ → ℕ → Pane → Collected Pane
collect_pane poll sid wid pid pane =
    emit_and_check poll sid wid pid
      (and_then (receive_chunks (poll.received pane.pty.writer) pane) take_output_chunk) pane

-- A failure in one entry leaves those behind it as they were.
abbrev pub collect_next :
    {A : Type 0} → ℕ → Collected A → BTree A → Collected (BTree A) → Collected (BTree A)
collect_next k (ok events, a) rest (ok more, rest') = (ok (events ++ more), (k, a) ∷ rest')
collect_next k (ok events, a) rest (err message, rest') = (err message, (k, a) ∷ rest')
collect_next k (ok events, a) rest (panic, rest') = (panic, (k, a) ∷ rest')
collect_next k (err message, a) rest later = (err message, (k, a) ∷ rest)
collect_next k (panic, a) rest later = (panic, (k, a) ∷ rest)

unfoldable pub collect_panes : Poll → ℕ → ℕ → BTree Pane → Collected (BTree Pane)
collect_panes poll sid wid [] = (ok [], [])
collect_panes poll sid wid ((pid, pane) ∷ panes) =
    collect_next pid (collect_pane poll sid wid pid pane) panes (collect_panes poll sid wid panes)

abbrev pub in_window : Window → Collected (BTree Pane) → Collected Window
in_window window (events, panes) = (events, record window { panes = panes })

unfoldable pub collect_windows : Poll → ℕ → BTree Window → Collected (BTree Window)
collect_windows poll sid [] = (ok [], [])
collect_windows poll sid ((wid, window) ∷ windows) =
    collect_next wid (in_window window (collect_panes poll sid wid window.panes)) windows
      (collect_windows poll sid windows)

abbrev pub in_session : Session → Collected (BTree Window) → Collected Session
in_session session (events, windows) = (events, record session { windows = windows })

unfoldable pub collect_sessions : Poll → BTree Session → Collected (BTree Session)
collect_sessions poll [] = (ok [], [])
collect_sessions poll ((sid, session) ∷ sessions) =
    collect_next sid (in_session session (collect_windows poll sid session.windows)) sessions
      (collect_sessions poll sessions)

unfoldable pub collect_runtime_events : Poll → Handler (List ServerEvent)
collect_runtime_events poll s =
    let (events, sessions) = collect_sessions poll s.sessions in
    (events, record s { sessions = sessions })
