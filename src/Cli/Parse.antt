-- ===== src/Cli/Parse.antt =====
-- `Command::parse` and the help text (caterm/src/main.rs).
use caterm.Prelude.{
  ℕ, zero, suc, true, false, ◌&&◌, ◌||◌, none, some, Option, List, [], ◌∷◌, ◌++◌, length,
  if◌then◌else◌,
}
use caterm.Text.{Text, codes, text_eq}
use caterm.Outcome.{Outcome, ok, err, panic, and_then, modify, ◌>>=◌}
use caterm.Cli.{Mode, Command, Action, dispatch}
use caterm.Cli.Parser.{Parser, Step, required, set_mode}
use caterm.Cli.Subcommand.{
  parse_attach, parse_new_session, parse_new_window, parse_new_pane, parse_split_horizontal,
  parse_split_vertical, parse_select_window, parse_select_pane, parse_rename_session,
  parse_rename_window, parse_rename_pane, parse_resize_pane, parse_kill_session, parse_kill_window,
  parse_kill_pane, parse_send_input,
}

-- `format!` puts a line feed between the lines.
abbrev pub lines_of : List Text → Text
lines_of [] = []
lines_of (s ∷ []) = s
lines_of (s ∷ t ∷ rest) = s ++ (codes "\n" ++ lines_of (t ∷ rest))

unfoldable pub help_text : Text
help_text = lines_of (
    codes "Caterm daemon"
    ∷ codes ""
    ∷ codes "Usage:"
    ∷ codes "  caterm [COMMAND] [OPTIONS]"
    ∷ codes ""
    ∷ codes "Commands:"
    ∷ codes "  start            Start the local Caterm server (default)"
    ∷ codes "  status           Show whether the local Caterm server is running"
    ∷ codes
        "  attach           Subscribe to live daemon events for an optional session/window/pane target"
    ∷ codes "  new-session      Create a session with an initial window and pane"
    ∷ codes "  new-window       Create a window in a session"
    ∷ codes "  new-pane         Create a pane in a window"
    ∷ codes "  split-horizontal Split a window into horizontal panes"
    ∷ codes "  split-vertical   Split a window into vertical panes"
    ∷ codes "  select-window    Select the active window in a session"
    ∷ codes "  select-pane      Select the active pane in a window"
    ∷ codes "  rename-session   Rename a session"
    ∷ codes "  rename-window    Rename a window in a session"
    ∷ codes "  rename-pane      Rename a pane in a window"
    ∷ codes "  resize-pane      Resize a pane by a signed delta within its window"
    ∷ codes "  kill-session     Delete a session by id or name"
    ∷ codes "  kill-window      Delete a window by id or name within a session"
    ∷ codes "  kill-pane        Delete a pane by id or name within a window"
    ∷ codes "  send-input       Send input bytes to a pane PTY"
    ∷ codes "  list             List the session/window/pane hierarchy"
    ∷ codes "  stop             Stop the local Caterm server"
    ∷ codes ""
    ∷ codes "Options:"
    ∷ codes "  -h, --help       Print help"
    ∷ codes "  -V, --version    Print version"
    ∷ codes "  --socket <path>  Override the Unix socket path for the local server"
    ∷ codes "  --foreground     Run `start` in the foreground explicitly"
    ∷ codes "  --daemonize      Run `start` as a detached background process"
    ∷ codes ""
    ∷ codes "Environment:"
    ∷ codes "  CATERM_SHELL     Override the shell used for the PTY session"
    ∷ codes "  CATERM_SOCKET    Override the default Unix socket path"
    ∷ codes "  CATERM_LOG_FILE  Write daemon logs to the given file"
    ∷ codes "  SHELL            Fallback shell if CATERM_SHELL is not set"
    ∷ codes "  RUST_LOG         Configure tracing output"
    ∷ [])

-- The subcommands, by their names.
unfoldable pub subcommand : Text → Option Step
subcommand arg =
    if text_eq arg (codes "start")
    then some (set_mode Mode.start)
    else if text_eq arg (codes "status")
    then some (set_mode Mode.status)
    else if text_eq arg (codes "attach")
    then some parse_attach
    else if text_eq arg (codes "new-session")
    then some parse_new_session
    else if text_eq arg (codes "new-window")
    then some parse_new_window
    else if text_eq arg (codes "new-pane")
    then some parse_new_pane
    else if text_eq arg (codes "split-horizontal")
    then some parse_split_horizontal
    else if text_eq arg (codes "split-vertical")
    then some parse_split_vertical
    else if text_eq arg (codes "select-window")
    then some parse_select_window
    else if text_eq arg (codes "select-pane")
    then some parse_select_pane
    else if text_eq arg (codes "rename-session")
    then some parse_rename_session
    else if text_eq arg (codes "rename-window")
    then some parse_rename_window
    else if text_eq arg (codes "rename-pane")
    then some parse_rename_pane
    else if text_eq arg (codes "resize-pane")
    then some parse_resize_pane
    else if text_eq arg (codes "kill-session")
    then some parse_kill_session
    else if text_eq arg (codes "kill-window")
    then some parse_kill_window
    else if text_eq arg (codes "kill-pane")
    then some parse_kill_pane
    else if text_eq arg (codes "send-input")
    then some parse_send_input
    else if text_eq arg (codes "list")
    then some (set_mode Mode.list)
    else if text_eq arg (codes "stop")
    then some (set_mode Mode.stop)
    else none

unfoldable pub unknown_argument : Text → Text
unfolding help_text
unknown_argument arg = codes "unknown argument: " ++ (arg ++ (codes "\n\n" ++ help_text))

-- A subcommand, if there has been none yet; anything else is refused.
abbrev pub run_subcommand : Option Step → Text → Step
run_subcommand none arg p = (err (unknown_argument arg), p)
run_subcommand (some step) arg p = elim p.mode_set [
  | true ↦ (err (unknown_argument arg), p)
  | false ↦ step p
]

abbrev pub set_command : (Command → Command) → Step
set_command f = modify λ p. record p { command = f p.command }

unfoldable pub parse_socket : Step
parse_socket = do
  value ← required (codes "--socket requires a path")
  set_command (λ c. record c { socket_path = some value })

-- One turn of the loop, on the argument that it has taken.
unfoldable pub parse_arg : Text → Step
parse_arg arg =
    if text_eq arg (codes "-h") || text_eq arg (codes "--help")
    then set_command (λ c. record c { mode = Mode.help })
    else if text_eq arg (codes "-V") || text_eq arg (codes "--version")
    then set_command (λ c. record c { version = true })
    else if text_eq arg (codes "--socket")
    then parse_socket
    else if text_eq arg (codes "--foreground")
    then set_command (λ c. record c { foreground = true })
    else if text_eq arg (codes "--daemonize")
    then set_command (λ c. record c { daemonize = true })
    else run_subcommand (subcommand arg) arg

abbrev pub turn : Step → List Text → Step
turn again [] p = (ok tt, p)
turn again (arg ∷ rest) p = (parse_arg arg >>= λ _. again) (record p { iter = rest })

-- The loop, on fuel for the arguments that are left.
unfoldable pub parse_loop : ℕ → Step
parse_loop zero p = (panic, p)
parse_loop (suc fuel) p = turn (parse_loop fuel) p.iter p

abbrev pub defaults : Command
defaults = record {
  mode = Mode.start;
  socket_path = none;
  version = false;
  foreground = false;
  daemonize = false;
}

-- The test behind the loop.
abbrev pub check_flags : Command → Outcome Command
check_flags command =
    if command.foreground && command.daemonize
    then err (codes "--foreground and --daemonize cannot be used together")
    else ok command

abbrev pub skip_one : List Text → List Text
skip_one [] = []
skip_one (arg ∷ args) = args

abbrev pub finish : Outcome (Unit {0}) × Parser → Outcome Command
finish (r, p) = and_then r (λ u. check_flags p.command)

-- The loop over the arguments behind the program's name.
abbrev pub parse_args : List Text → Outcome Command
parse_args args =
    finish (
      parse_loop (suc (length args)) (record { iter = args; mode_set = false; command = defaults }))

unfoldable pub parse : List Text → Outcome Command
unfolding parse_loop
parse args = parse_args (skip_one args)

-- `main`, from the arguments to what it sets out to do.
unfoldable pub main : Text → List Text → Outcome Action
unfolding parse
main default_path args = and_then (parse args) (λ command. ok (dispatch default_path command))
