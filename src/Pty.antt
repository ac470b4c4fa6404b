-- ===== src/Pty.antt =====
-- A pane's shell on its pseudo-terminal (caterm/src/pty.rs). The operating system and the PTY
-- library are a `Host`, whose answers are arguments of the methods.
use caterm.Prelude.{ℕ, Option, none, some, List, ◌++◌}
use caterm.Text.{Text, codes}
use caterm.Outcome.{Outcome, Answer, ok, ok_or, and_then, from_answer}

-- What has come in from the shells when the runtime events are collected: for each process the
-- chunks that the pump has read, and the answer of `try_wait`.
pub record Poll : Type 0 where
  pub received : ℕ → List (List ℕ)
  pub exit_status : ℕ → Answer (Option ℕ)

-- The answers of the system during one request. `open_shell` opens the PTY and starts the shell for
-- the pane of the given id, and gives the process; the polls are numbered in the order of the calls.
-- `save` is the answer of writing the state file.
pub record Host : Type 0 where
  pub open_shell : ℕ → Text → ℕ → ℕ → Answer ℕ
  pub write : ℕ → Text → Answer (Unit {0})
  pub kill : ℕ → Answer (Unit {0})
  pub wait : ℕ → Answer ℕ
  pub poll : ℕ → Poll
  pub save : Answer (Unit {0})

-- `reader` and `child` are taken out of their options; `written` is what the writer was given.
pub record PtySession : Type 0 where
  pub reader : Option ℕ
  pub writer : ℕ
  pub child : Option ℕ
  pub written : Text

unfoldable pub spawn : Host → ℕ → Text → ℕ → ℕ → Outcome PtySession
spawn host call shell cols rows =
    and_then (from_answer (host.open_shell call shell cols rows)) (λ process. ok (record {
      reader = some process;
      writer = process;
      child = some process;
      written = codes "";
    }))

unfoldable pub start_output_pump : PtySession → Outcome PtySession
start_output_pump pty =
    and_then (ok_or pty.reader (codes "PTY output pump already started"))
      (λ reader. ok (record pty { reader = none }))

unfoldable pub write_all : Host → PtySession → Text → Outcome PtySession
write_all host pty bytes =
    and_then (from_answer (host.write pty.writer bytes))
      (λ _. ok (record pty { written = pty.written ++ bytes }))

-- The result, and the session with its child taken.
unfoldable pub wait : Host → PtySession → Outcome ℕ × PtySession
wait host pty = (
  and_then (ok_or pty.child (codes "PTY child already awaited"))
      (λ child. from_answer (host.wait child)),
  record pty { child = none },
)

unfoldable pub try_wait : Poll → PtySession → Outcome (Option ℕ)
try_wait poll pty =
    and_then (ok_or pty.child (codes "PTY child not available"))
      (λ child. from_answer (poll.exit_status child))

unfoldable pub terminate : Host → PtySession → Outcome (Unit {0})
terminate host pty =
    and_then (ok_or pty.child (codes "PTY child not available"))
      (λ child. from_answer (host.kill child))
