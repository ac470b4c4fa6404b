-- ===== src/Server/Runtime/Valid.antt =====
-- The collection of output and exits leaves ids, names and active entries as they are.
use caterm.Prelude.{
  ℕ, ◌≡◌, refl, ◌∙◌, arith, Option, none, some, List, [], ◌∷◌, is_some, is_empty, ◌++◌, Bool-cases,
  Option-cases, inl, inr, ltb, ◌&&◌, ◌==◌,
}
use caterm.Text.{Text, slice_to, drain}
use caterm.Text.Utf8.{from_utf8_lossy}
use caterm.Outcome.{Outcome, ok, err, panic, and_then}
use caterm.Outcome.Laws.{and_then-eq-ok}
use caterm.BTree.{BTree}
use caterm.Pty.{Poll, try_wait}
use caterm.Pane.{
  Pane, enqueue_output, push_output_history, trim, take_output_chunk, take_len,
  max_output_history_bytes, max_pending_output_bytes,
}
use caterm.Window.{Window}
use caterm.Session.{Session}
use caterm.Event.{ServerEvent}
use caterm.Server.State.{Server}
use caterm.Server.Runtime.{
  Collected, receive_chunks, note_exit, emit_and_check, collect_pane, collect_next, output_event,
  in_window, in_session, collect_panes, collect_windows, collect_sessions, collect_runtime_events,
}
use caterm.Server.Valid.Alike.{
  Alike, Alike-refl, SamePane, SameWindow, SameSession, SameServer, SameWindow-refl,
  SameSession-refl,
}

enqueue_output-SamePane :
    (pane pane' : Pane) (chunk : Text) → enqueue_output pane chunk ≡ ok pane' → SamePane pane pane'
unfolding enqueue_output
enqueue_output-SamePane pane pane' chunk h =
    let (logged, pushed, h') = and_then-eq-ok (push_output_history pane chunk) _ h in
    let (history, cut, h'') =
      and_then-eq-ok (trim max_output_history_bytes (pane.output_history ++ chunk)) _
        (unfold push_output_history in pushed) in
    let (pending, cut', h''') =
      and_then-eq-ok (trim max_pending_output_bytes (logged.pending_output ++ chunk)) _ h' in
    ground (arith, h'', h''')

receive_chunks-SamePane :
    (chunks : List (List ℕ)) (pane pane' : Pane)
    → receive_chunks chunks pane ≡ ok pane'
    → SamePane pane pane'
unfolding receive_chunks
receive_chunks-SamePane [] pane pane' h = (ground arith, ground arith)
receive_chunks-SamePane (chunk ∷ chunks) pane pane' h = elim (Bool-cases (is_empty chunk)) [
  | inl none_read ↦ receive_chunks-SamePane chunks pane pane' (ground arith)
  | inr read ↦
      let (taken, first_step, rest) =
        and_then-eq-ok (enqueue_output pane (from_utf8_lossy chunk)) (receive_chunks chunks)
          (ground arith) in
      let (i, n) = enqueue_output-SamePane pane taken (from_utf8_lossy chunk) first_step in
      let (i', n') = receive_chunks-SamePane chunks taken pane' rest in (i' ∙ i, n' ∙ n)
]

take_output_chunk-SamePane :
    (pane : Pane) (r : Option Text × Pane) → take_output_chunk pane ≡ ok r → SamePane pane r.1
unfolding take_output_chunk
take_output_chunk-SamePane pane r h =
    elim (Bool-cases (is_empty pane.pending_output && pane.dropped_output_bytes == 0)) [
      | inl idle ↦ ground arith
      | inr busy ↦ elim (Bool-cases (ltb 0 (take_len pane.pending_output))) [
        | inl text ↦
            elim (Option-cases (slice_to (take_len pane.pending_output) pane.pending_output)) [
              | inl no_chunk ↦ absurd (ground arith)
              | inr (chunk, taken) ↦
                  elim (Option-cases (drain (take_len pane.pending_output) pane.pending_output)) [
                    | inl no_rest ↦ absurd (ground arith)
                    | inr (rest, cut) ↦ ground arith
                  ]
            ]
        | inr nothing ↦ ground arith
      ]
    ]

note_exit-SamePane :
    (sid wid pid : ℕ) (status : Outcome (Option ℕ)) (events : List ServerEvent) (pane : Pane)
    → SamePane pane (note_exit sid wid pid status events pane).1
note_exit-SamePane sid wid pid (ok none) events pane = (refl, refl)
note_exit-SamePane sid wid pid (ok (some code)) events pane = (refl, refl)
note_exit-SamePane sid wid pid (err message) events pane = (refl, refl)
note_exit-SamePane sid wid pid panic events pane = (refl, refl)

emit_and_check-SamePane :
    (poll : Poll) (sid wid pid : ℕ) (r : Outcome (Option Text × Pane)) (old : Pane)
    → ((p : Option Text × Pane) → r ≡ ok p → SamePane old p.1)
    → SamePane old (emit_and_check poll sid wid pid r old).1
emit_and_check-SamePane poll sid wid pid (ok (text, pane)) old h =
    let (own, named) = h (text, pane) refl in
    let (own', named') =
      note_exit-SamePane sid wid pid (try_wait poll pane.pty) (output_event sid wid pid text)
        pane in
    elim (Bool-cases (is_some pane.exit_code)) [
      | inl exited ↦ (rw exited own, rw exited named)
      | inr running ↦ (rw running (own' ∙ own), rw running (named' ∙ named))
    ]
emit_and_check-SamePane poll sid wid pid (err message) old h = (refl, refl)
emit_and_check-SamePane poll sid wid pid panic old h = (refl, refl)

collect_pane-SamePane :
    (poll : Poll) (sid wid pid : ℕ) (pane : Pane)
    → SamePane pane (collect_pane poll sid wid pid pane).1
unfolding collect_pane
collect_pane-SamePane poll sid wid pid pane =
    emit_and_check-SamePane poll sid wid pid
      (and_then (receive_chunks (poll.received pane.pty.writer) pane) take_output_chunk) pane
      (λ p h.
        let (taken, received, h') =
          and_then-eq-ok (receive_chunks (poll.received pane.pty.writer) pane) take_output_chunk
            h in
        let (i, n) = receive_chunks-SamePane (poll.received pane.pty.writer) pane taken received in
        let (i', n') = take_output_chunk-SamePane taken p h' in (i' ∙ i, n' ∙ n))

collect_next-Alike :
    {A : Type 0} (R : A → A → Type 0) (k : ℕ) (a : A) (c : Collected A) (rest : BTree A)
    (later : Collected (BTree A))
    → ((x : A) → R x x)
    → R a c.1
    → Alike R rest later.1
    → Alike R ((k, a) ∷ rest) (collect_next k c rest later).1
collect_next-Alike R k a (ok events, b) rest (ok more, rest') r same like = (refl, same, like)
collect_next-Alike R k a (ok events, b) rest (err message, rest') r same like = (refl, same, like)
collect_next-Alike R k a (ok events, b) rest (panic, rest') r same like = (refl, same, like)
collect_next-Alike R k a (err message, b) rest later r same like = (refl, same, Alike-refl R r rest)
collect_next-Alike R k a (panic, b) rest later r same like = (refl, same, Alike-refl R r rest)

collect_panes-Alike :
    (poll : Poll) (sid wid : ℕ) (panes : BTree Pane)
    → Alike SamePane panes (collect_panes poll sid wid panes).1
unfolding collect_panes
collect_panes-Alike poll sid wid [] = tt
collect_panes-Alike poll sid wid ((pid, pane) ∷ panes) =
    collect_next-Alike SamePane pid pane (collect_pane poll sid wid pid pane) panes
      (collect_panes poll sid wid panes) (λ x. (refl, refl))
      (collect_pane-SamePane poll sid wid pid pane) (collect_panes-Alike poll sid wid panes)

collect_windows-Alike :
    (poll : Poll) (sid : ℕ) (windows : BTree Window)
    → Alike SameWindow windows (collect_windows poll sid windows).1
unfolding collect_windows
collect_windows-Alike poll sid [] = tt
collect_windows-Alike poll sid ((wid, window) ∷ windows) =
    collect_next-Alike SameWindow wid window
      (in_window window (collect_panes poll sid wid window.panes)) windows
      (collect_windows poll sid windows) SameWindow-refl
      (record {
        same_id = refl;
        same_name = refl;
        same_active = refl;
        panes = collect_panes-Alike poll sid wid window.panes;
      })
      (collect_windows-Alike poll sid windows)

collect_sessions-Alike :
    (poll : Poll) (sessions : BTree Session)
    → Alike SameSession sessions (collect_sessions poll sessions).1
unfolding collect_sessions
collect_sessions-Alike poll [] = tt
collect_sessions-Alike poll ((sid, session) ∷ sessions) =
    collect_next-Alike SameSession sid session
      (in_session session (collect_windows poll sid session.windows)) sessions
      (collect_sessions poll sessions) SameSession-refl
      (record {
        same_id = refl;
        same_name = refl;
        same_active = refl;
        windows = collect_windows-Alike poll sid session.windows;
      })
      (collect_sessions-Alike poll sessions)

-- The collection of output and exits, whether it returns, fails or panics half way, keeps the counters,
-- the entries of every map with their ids and names, and the active entries.
pub collect_runtime_events-SameServer :
    (poll : Poll) (s : Server) → SameServer s (collect_runtime_events poll s).1
unfolding collect_runtime_events
collect_runtime_events-SameServer poll s = record {
  next_sessions = refl;
  next_windows = refl;
  next_panes = refl;
  sessions = collect_sessions-Alike poll s.sessions;
}
