-- ===== src/Cli/RoundTrip.antt =====
-- What is written on the command line is what `main` asks of the daemon.
use caterm.Prelude.{
  ℕ, suc, Bool, true, false, ◌&&◌, Option, none, some, unwrap_or, List, [], ◌∷◌, length, arith, ◌≡◌,
  refl, ap, ◌∙◌,
}
use caterm.Text.{Text, codes, text_eq}
use caterm.Outcome.{ok, and_then, ◌>>=◌}
use caterm.Request.{SessionRequest}
use caterm.Cli.{Mode, Command, Action, dispatch}
use caterm.Cli.Parser.{Parser, next, required, set_mode, join}
use caterm.Cli.Subcommand
use caterm.Cli.Parse
use caterm.Cli.Client.{daemonized_args}
use caterm.Cli.Write.{Flags, words, IsSendable, command_line, asked}
use caterm.Cli.Write.Number.{parse_i16-i16_text}

-- The mode of a request.
unfoldable mode_of : SessionRequest → Mode
mode_of (SessionRequest.attach session window pane) = Mode.attach session window pane
mode_of (SessionRequest.create_session name) = Mode.new_session name
mode_of (SessionRequest.create_window session name) = Mode.new_window session name
mode_of (SessionRequest.create_pane session window name) = Mode.new_pane session window name
mode_of (SessionRequest.split_horizontal session window name) =
    Mode.split_horizontal session window name
mode_of (SessionRequest.split_vertical session window name) =
    Mode.split_vertical session window name
mode_of (SessionRequest.select_window session target) = Mode.select_window session target
mode_of (SessionRequest.select_pane session window target) = Mode.select_pane session window target
mode_of (SessionRequest.rename_session target name) = Mode.rename_session target name
mode_of (SessionRequest.rename_window session target name) = Mode.rename_window session target name
mode_of (SessionRequest.rename_pane session window target name) =
    Mode.rename_pane session window target name
mode_of (SessionRequest.resize_pane session window target delta) =
    Mode.resize_pane session window target delta
mode_of (SessionRequest.delete_session target) = Mode.kill_session target
mode_of (SessionRequest.delete_window session target) = Mode.kill_window session target
mode_of (SessionRequest.delete_pane session window target) = Mode.kill_pane session window target
mode_of (SessionRequest.send_input session window pane input) =
    Mode.send_input session window pane input
mode_of SessionRequest.list = Mode.list
mode_of SessionRequest.stop = Mode.stop
mode_of SessionRequest.ping = Mode.help

-- The parser before the subcommand, and behind it.
abbrev before : List Text → Command → Parser
before args command = record { iter = args; mode_set = false; command = command }

abbrev behind : Mode → Command → Parser
behind mode command = record {
  iter = [];
  mode_set = true;
  command = record command { mode = mode };
}

-- Each subcommand takes its arguments to the end.
parse_loop-words :
    (n : ℕ) (r : SessionRequest) (c : Command)
    → IsSendable r
    → Parse.parse_loop (suc (suc n)) (before (words r) c) ≡ (ok tt, behind (mode_of r) c)
unfolding Parse.parse_loop Parse.parse_arg Parse.subcommand text_eq words mode_of ◌>>=◌ required
    next set_mode IsSendable Subcommand.collect join Subcommand.parse_attach
    Subcommand.parse_new_session Subcommand.parse_new_window Subcommand.parse_new_pane
    Subcommand.parse_split_horizontal Subcommand.parse_split_vertical Subcommand.parse_select_window
    Subcommand.parse_select_pane Subcommand.parse_rename_session Subcommand.parse_rename_window
    Subcommand.parse_rename_pane Subcommand.parse_resize_pane Subcommand.parse_kill_session
    Subcommand.parse_kill_window Subcommand.parse_kill_pane Subcommand.parse_send_input
parse_loop-words n (SessionRequest.attach none window pane) c h = ground (arith)
parse_loop-words n (SessionRequest.attach (some s) none pane) c h = ground (arith)
parse_loop-words n (SessionRequest.attach (some s) (some w) none) c h = refl
parse_loop-words n (SessionRequest.attach (some s) (some w) (some p)) c h = refl
parse_loop-words n (SessionRequest.create_session none) c h = refl
parse_loop-words n (SessionRequest.create_session (some name)) c h = refl
parse_loop-words n (SessionRequest.create_window s none) c h = refl
parse_loop-words n (SessionRequest.create_window s (some name)) c h = refl
parse_loop-words n (SessionRequest.create_pane s w none) c h = refl
parse_loop-words n (SessionRequest.create_pane s w (some name)) c h = refl
parse_loop-words n (SessionRequest.split_horizontal s w none) c h = refl
parse_loop-words n (SessionRequest.split_horizontal s w (some name)) c h = refl
parse_loop-words n (SessionRequest.split_vertical s w none) c h = refl
parse_loop-words n (SessionRequest.split_vertical s w (some name)) c h = refl
parse_loop-words n (SessionRequest.resize_pane s w t delta) c h =
    rw (parse_i16-i16_text delta h) refl
parse_loop-words n SessionRequest.ping c h = absurd h
parse_loop-words n _ c h = refl

length-words : (r : SessionRequest) → IsSendable r → (m : ℕ) × (length (words r) ≡ suc m)
unfolding words IsSendable
length-words SessionRequest.ping h = absurd h
length-words _ h = (_, refl)

parse_args-words :
    (r : SessionRequest) (c : Command)
    → IsSendable r
    → Parse.parse_loop (suc (length (words r))) (before (words r) c) ≡ (ok tt, behind (mode_of r) c)
parse_args-words r c h =
    let (m, e) = length-words r h in
    ap (λ (n : ℕ). Parse.parse_loop (suc n) (before (words r) c)) e ∙ parse_loop-words m r c h

parse_args-more :
    (r : SessionRequest) (c : Command)
    → IsSendable r
    → Parse.parse_loop (suc (suc (length (words r)))) (before (words r) c)
      ≡ (ok tt, behind (mode_of r) c)
parse_args-more r c h =
    let (m, e) = length-words r h in
    ap (λ (n : ℕ). Parse.parse_loop (suc (suc n)) (before (words r) c)) e
    ∙ parse_loop-words (suc m) r c h

-- The command that the flags come to, before the subcommand.
abbrev flagged : Flags → Command
flagged f = record Parse.defaults {
  socket_path = f.socket_path;
  foreground = f.foreground;
  daemonize = f.daemonize;
}

abbrev rest_of : Flags → SessionRequest → List Text
rest_of f r = Parse.skip_one (command_line f r)

parse_loop-flags :
    (socket : Option Text) (foreground daemonize : Bool) (r : SessionRequest)
    → let f : Flags = record {
      socket_path = socket;
      foreground = foreground;
      daemonize = daemonize;
    } in
      IsSendable r
      → Parse.parse_loop (suc (length (rest_of f r))) (before (rest_of f r) Parse.defaults)
        ≡ (ok tt, behind (mode_of r) (flagged f))
unfolding Parse.parse_loop Parse.parse_arg Parse.parse_socket text_eq command_line ◌>>=◌ required
    next
parse_loop-flags none false false r h = parse_args-words r _ h
parse_loop-flags none false true r h = parse_args-words r _ h
parse_loop-flags none true false r h = parse_args-words r _ h
parse_loop-flags none true true r h = parse_args-words r _ h
parse_loop-flags (some path) false false r h = parse_args-more r _ h
parse_loop-flags (some path) false true r h = parse_args-more r _ h
parse_loop-flags (some path) true false r h = parse_args-more r _ h
parse_loop-flags (some path) true true r h = parse_args-more r _ h

dispatch-mode_of :
    (default : Text) (f : Flags) (r : SessionRequest)
    → IsSendable r
    → dispatch default (record (flagged f) { mode = mode_of r })
      ≡ asked (unwrap_or f.socket_path default) r
unfolding dispatch mode_of IsSendable
dispatch-mode_of default f SessionRequest.ping h = absurd h
dispatch-mode_of default f _ h = refl

-- Every request other than a ping, with the socket and one of the two flags at will, can be written
-- on the command line so that `main` asks exactly this request of the daemon behind that socket. An
-- attached pane must be given with its window and its session, and a change of size fits an `i16`.
pub main-command_line :
    (default : Text) (f : Flags) (r : SessionRequest)
    → (f.foreground && f.daemonize) ≡ false
    → IsSendable r
    → Parse.main default (command_line f r) ≡ ok (asked (unwrap_or f.socket_path default) r)
unfolding Parse.main Parse.parse
main-command_line default f r one h =
    ap (λ q. and_then (Parse.finish q) (λ command. ok (dispatch default command)))
      (parse_loop-flags f.socket_path f.foreground f.daemonize r h)
    ∙ rw one (ap (λ action. ok action) (dispatch-mode_of default f r h))

parse_loop-help :
    (r : SessionRequest)
    → IsSendable r
    → Parse.parse_loop
        (suc (suc (length (words r))))
        (before (codes "--help" ∷ words r) Parse.defaults)
      ≡ (ok tt, behind (mode_of r) Parse.defaults)
unfolding Parse.parse_loop Parse.parse_arg text_eq ◌>>=◌
parse_loop-help r h = parse_args-words r _ h

-- `--help` in front of a subcommand is forgotten: the request is sent all the same. The request is
-- one that can be written on the command line.
pub main-help :
    (default : Text) (r : SessionRequest)
    → IsSendable r
    → Parse.main default (codes "caterm" ∷ codes "--help" ∷ words r) ≡ ok (asked default r)
unfolding Parse.main Parse.parse
main-help default r h =
    ap (λ q. and_then (Parse.finish q) (λ command. ok (dispatch default command)))
      (parse_loop-help r h)
    ∙ ap (λ action. ok action)
        (dispatch-mode_of default
          (record { socket_path = none; foreground = false; daemonize = false }) r h)

-- The process that `run_daemonized_start` spawns starts the server on the same socket, whatever
-- default its environment gives it.
main-daemonized_args :
    (default program socket : Text)
    → Parse.main default (program ∷ daemonized_args socket) ≡ ok (Action.start_server socket)
unfolding Parse.main Parse.parse Parse.parse_arg Parse.subcommand Parse.parse_socket text_eq ◌>>=◌
    required next set_mode dispatch daemonized_args
main-daemonized_args default program socket = refl
