-- ===== src/Pane.antt =====
-- A pane with its output buffers (caterm/src/session_manager/pane.rs).
pub mod Buffer
pub mod Emit
use caterm.Prelude.{
  ℕ, ◌+◌, ◌-◌, ◌%◌, ◌^◌, Bool, ◌||◌, ◌&&◌, Option, none, some, [], ◌∷◌, ◌++◌, min, ltb, ◌==◌,
  if◌then◌else◌, is_empty,
}
use caterm.Text.{Text, codes, text_eq, len_utf8, len, drain, slice_to}
use caterm.Text.Decimal.{to_string}
use caterm.Outcome.{Outcome, ok, expect, and_then}
use caterm.Snapshot.{PaneSnapshot}
use caterm.Pty.{PtySession}

-- `output_rx` is not here: what it receives is an argument of `collect_runtime_events`.
pub record Pane : Type 0 where
  pub id : ℕ
  pub index : ℕ
  pub name : Text
  pub size : ℕ
  pub shell : Text
  pub pty : PtySession
  pub output_history : Text
  pub pending_output : Text
  pub dropped_output_bytes : ℕ
  pub exit_code : Option ℕ

abbrev pub max_output_history_bytes : ℕ
max_output_history_bytes = 8192

abbrev pub max_pending_output_bytes : ℕ
max_pending_output_bytes = 32768

abbrev pub max_emit_output_bytes : ℕ
max_emit_output_bytes = 4096

unfoldable pub matches_target : Pane → Text → Bool
matches_target pane target = text_eq pane.name target || text_eq (to_string pane.index) target

unfoldable pub snapshot : Pane → PaneSnapshot
snapshot pane = record {
  id = pane.id;
  index = pane.index;
  name = pane.name;
  size = pane.size;
  shell = pane.shell;
  exit_code = pane.exit_code;
}

-- A buffer that has grown past `limit` loses its oldest bytes; the cut may panic.
unfoldable pub trim : ℕ → Text → Outcome Text
trim limit buffer =
    if ltb limit (len buffer) then expect (drain (len buffer - limit) buffer) else ok buffer

unfoldable pub push_output_history : Pane → Text → Outcome Pane
push_output_history pane chunk =
    and_then (trim max_output_history_bytes (pane.output_history ++ chunk))
      (λ history. ok (record pane { output_history = history }))

-- How many bytes a trim to the limit takes off.
abbrev pub excess : ℕ → Text → ℕ
excess limit buffer = len buffer - limit

unfoldable pub enqueue_output : Pane → Text → Outcome Pane
unfolding push_output_history
enqueue_output pane chunk = and_then (push_output_history pane chunk) (λ logged.
    and_then (trim max_pending_output_bytes (logged.pending_output ++ chunk)) (λ pending.
      ok (record logged {
        pending_output = pending;
        dropped_output_bytes =
            (logged.dropped_output_bytes
              + excess max_pending_output_bytes (logged.pending_output ++ chunk))
            % 2 ^ 64;
      })))

-- The end of the last character that begins before the limit; `found` is the answer so far.
unfoldable pub emit_len : ℕ → ℕ → Text → ℕ
emit_len at found [] = found
emit_len at found (c ∷ s) =
    let rest = emit_len (at + len_utf8 c) (at + len_utf8 c) s in
    if ltb at max_emit_output_bytes then rest else found

unfoldable pub take_len : Text → ℕ
unfolding emit_len
take_len pending = emit_len 0 (min (len pending) max_emit_output_bytes) pending

-- `take_output_chunk` reports the bytes that were dropped first.
unfoldable pub dropped_notice : ℕ → Text
dropped_notice dropped =
    if ltb 0 dropped
    then codes "[caterm dropped " ++ (to_string dropped ++ codes " bytes of PTY output]\r\n")
    else []

abbrev pub non_empty : Text → Option Text
non_empty text = if is_empty text then none else some text

-- The chunk to emit, if there is one, and the pane without it.
unfoldable pub take_output_chunk : Pane → Outcome (Option Text × Pane)
take_output_chunk pane =
    if is_empty pane.pending_output && pane.dropped_output_bytes == 0
    then ok (none, pane)
    else (let n = take_len pane.pending_output in
        let notice = dropped_notice pane.dropped_output_bytes in
        if ltb 0 n
        then and_then (expect (slice_to n pane.pending_output)) (λ chunk.
          and_then (expect (drain n pane.pending_output)) (λ rest. ok (
            non_empty (notice ++ chunk),
            record pane { pending_output = rest; dropped_output_bytes = 0 },
          )))
        else ok (non_empty notice, record pane { dropped_output_bytes = 0 }))
