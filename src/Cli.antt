-- ===== src/Cli.antt =====
-- The command line of caterm (caterm/src/main.rs): what the arguments can say, and what `main` does
-- with it.
pub mod Parser
pub mod Subcommand
pub mod Parse
pub mod Calm
pub mod Total
pub mod View
pub mod Render
pub mod Client
pub mod Write
pub mod RoundTrip
use caterm.Prelude.{Bool, true, false, ◌&&◌, not, Option, unwrap_or, if◌then◌else◌}
use caterm.Prelude.Int.{ℤ}
use caterm.Text.{Text}
use caterm.Request.{SessionRequest}

-- The fields stand in the order of the source.
pub data Mode : Type 0 where
  start status : Mode
  attach : Option Text → Option Text → Option Text → Mode
  new_session : Option Text → Mode
  new_window : Text → Option Text → Mode
  new_pane : Text → Text → Option Text → Mode
  split_horizontal : Text → Text → Option Text → Mode
  split_vertical : Text → Text → Option Text → Mode
  select_window : Text → Text → Mode
  select_pane : Text → Text → Text → Mode
  rename_session : Text → Text → Mode
  rename_window : Text → Text → Text → Mode
  rename_pane : Text → Text → Text → Text → Mode
  resize_pane : Text → Text → Text → ℤ → Mode
  kill_session : Text → Mode
  kill_window : Text → Text → Mode
  kill_pane : Text → Text → Text → Mode
  send_input : Text → Text → Text → Text → Mode
  list stop help : Mode

pub record Command : Type 0 where
  pub mode : Mode
  pub socket_path : Option Text
  pub version : Bool
  pub foreground : Bool
  pub daemonize : Bool

-- What `main` sets out to do on the socket of its options.
pub data Action : Type 0 where
  print_help print_version : Action
  run_daemonized_start : Text → Action
  start_server : Text → Action
  run_status_command : Text → Action
  run_attach_command : Text → Option Text → Option Text → Option Text → Action
  run_client_command : Text → SessionRequest → Action

-- The last match of `main`, with the socket path and the two flags of `start`.
unfoldable pub run_mode : Text → Bool → Bool → Mode → Action
run_mode socket daemonize foreground start =
    if daemonize && not foreground then run_daemonized_start socket else start_server socket
run_mode socket daemonize foreground status = run_status_command socket
run_mode socket daemonize foreground (attach session window pane) =
    run_attach_command socket session window pane
run_mode socket daemonize foreground (new_session name) =
    run_client_command socket (SessionRequest.create_session name)
run_mode socket daemonize foreground (new_window session name) =
    run_client_command socket (SessionRequest.create_window session name)
run_mode socket daemonize foreground (new_pane session window name) =
    run_client_command socket (SessionRequest.create_pane session window name)
run_mode socket daemonize foreground (split_horizontal session window name) =
    run_client_command socket (SessionRequest.split_horizontal session window name)
run_mode socket daemonize foreground (split_vertical session window name) =
    run_client_command socket (SessionRequest.split_vertical session window name)
run_mode socket daemonize foreground (select_window session target) =
    run_client_command socket (SessionRequest.select_window session target)
run_mode socket daemonize foreground (select_pane session window target) =
    run_client_command socket (SessionRequest.select_pane session window target)
run_mode socket daemonize foreground (rename_session target name) =
    run_client_command socket (SessionRequest.rename_session target name)
run_mode socket daemonize foreground (rename_window session target name) =
    run_client_command socket (SessionRequest.rename_window session target name)
run_mode socket daemonize foreground (rename_pane session window target name) =
    run_client_command socket (SessionRequest.rename_pane session window target name)
run_mode socket daemonize foreground (resize_pane session window target delta) =
    run_client_command socket (SessionRequest.resize_pane session window target delta)
run_mode socket daemonize foreground (kill_session target) =
    run_client_command socket (SessionRequest.delete_session target)
run_mode socket daemonize foreground (kill_window session target) =
    run_client_command socket (SessionRequest.delete_window session target)
run_mode socket daemonize foreground (kill_pane session window target) =
    run_client_command socket (SessionRequest.delete_pane session window target)
run_mode socket daemonize foreground (send_input session window pane input) =
    run_client_command socket (SessionRequest.send_input session window pane input)
run_mode socket daemonize foreground list = run_client_command socket SessionRequest.list
run_mode socket daemonize foreground stop = run_client_command socket SessionRequest.stop
run_mode socket daemonize foreground help = print_help

abbrev pub is_help : Mode → Bool
is_help help = true
is_help _ = false

-- `main` behind the parser. `default_path` is the answer of `default_socket_path`.
unfoldable pub dispatch : Text → Command → Action
unfolding run_mode
dispatch default_path command =
    if is_help command.mode
    then print_help
    else if command.version
    then print_version
    else run_mode (unwrap_or command.socket_path default_path) command.daemonize command.foreground
        command.mode
