-- ===== src/Cli/Subcommand.antt =====
-- What each subcommand takes from the arguments (`Command::parse`, caterm/src/main.rs).
use caterm.Prelude.{is_some, is_empty, not, List, []}
use caterm.Text.{Text, codes}
use caterm.Outcome.{Method, ok, ok_or, guard, lift, ◌>>=◌, ◌>>◌}
use caterm.Cli.{Mode}
use caterm.Cli.Parser.{Parser, Step, next, required, set_mode, parse_i16, join}

unfoldable pub parse_attach : Step
parse_attach = do
  session ← next
  window ← next
  pane ← next
  more ← next
  lift (
      guard (not (is_some more))
        (codes "attach accepts at most a session, window, and pane target"))
  set_mode (Mode.attach session window pane)

unfoldable pub parse_new_session : Step
parse_new_session = do name ← next; set_mode (Mode.new_session name)

unfoldable pub parse_new_window : Step
parse_new_window = do
  session ← required (codes "new-window requires a session id or name")
  name ← next
  set_mode (Mode.new_window session name)

unfoldable pub parse_new_pane : Step
parse_new_pane = do
  session ← required (codes "new-pane requires a session id or name")
  window ← required (codes "new-pane requires a window id or name")
  name ← next
  set_mode (Mode.new_pane session window name)

unfoldable pub parse_split_horizontal : Step
parse_split_horizontal = do
  session ← required (codes "split-horizontal requires a session id or name")
  window ← required (codes "split-horizontal requires a window id or name")
  name ← next
  set_mode (Mode.split_horizontal session window name)

unfoldable pub parse_split_vertical : Step
parse_split_vertical = do
  session ← required (codes "split-vertical requires a session id or name")
  window ← required (codes "split-vertical requires a window id or name")
  name ← next
  set_mode (Mode.split_vertical session window name)

unfoldable pub parse_select_window : Step
parse_select_window = do
  session ← required (codes "select-window requires a session id or name")
  target ← required (codes "select-window requires a window id or name")
  set_mode (Mode.select_window session target)

unfoldable pub parse_select_pane : Step
parse_select_pane = do
  session ← required (codes "select-pane requires a session id or name")
  window ← required (codes "select-pane requires a window id or name")
  target ← required (codes "select-pane requires a pane id or name")
  set_mode (Mode.select_pane session window target)

unfoldable pub parse_rename_session : Step
parse_rename_session = do
  target ← required (codes "rename-session requires a session id or name")
  name ← required (codes "rename-session requires a new name")
  set_mode (Mode.rename_session target name)

unfoldable pub parse_rename_window : Step
parse_rename_window = do
  session ← required (codes "rename-window requires a session id or name")
  target ← required (codes "rename-window requires a window id or name")
  name ← required (codes "rename-window requires a new name")
  set_mode (Mode.rename_window session target name)

unfoldable pub parse_rename_pane : Step
parse_rename_pane = do
  session ← required (codes "rename-pane requires a session id or name")
  window ← required (codes "rename-pane requires a window id or name")
  target ← required (codes "rename-pane requires a pane id or name")
  name ← required (codes "rename-pane requires a new name")
  set_mode (Mode.rename_pane session window target name)

unfoldable pub parse_resize_pane : Step
parse_resize_pane = do
  session ← required (codes "resize-pane requires a session id or name")
  window ← required (codes "resize-pane requires a window id or name")
  target ← required (codes "resize-pane requires a pane id or name")
  text ← required (codes "resize-pane requires a signed delta")
  delta ← lift (ok_or (parse_i16 text) (codes "resize-pane delta must be an integer"))
  set_mode (Mode.resize_pane session window target delta)

unfoldable pub parse_kill_session : Step
parse_kill_session = do
  target ← required (codes "kill-session requires a session id or name")
  set_mode (Mode.kill_session target)

unfoldable pub parse_kill_window : Step
parse_kill_window = do
  session ← required (codes "kill-window requires a session id or name")
  target ← required (codes "kill-window requires a window id or name")
  set_mode (Mode.kill_window session target)

unfoldable pub parse_kill_pane : Step
parse_kill_pane = do
  session ← required (codes "kill-pane requires a session id or name")
  window ← required (codes "kill-pane requires a window id or name")
  target ← required (codes "kill-pane requires a pane id or name")
  set_mode (Mode.kill_pane session window target)

-- `iter.by_ref().collect()`
unfoldable pub collect : Method Parser (List Text)
collect p = (ok p.iter, record p { iter = [] })

unfoldable pub parse_send_input : Step
parse_send_input = do
  session ← required (codes "send-input requires a session id or name")
  window ← required (codes "send-input requires a window id or name")
  pane ← required (codes "send-input requires a pane id or name")
  rest ← collect
  lift (guard (not (is_empty rest)) (codes "send-input requires input data"))
  set_mode (Mode.send_input session window pane (join rest))
