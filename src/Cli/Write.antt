-- ===== src/Cli/Write.antt =====
-- How to ask for a request on the command line (the usage that caterm/src/main.rs reads).
pub mod Number
use caterm.Prelude.{
  ℕ, ◌≤◌, Bool, true, false, ◌&&◌, Option, none, some, List, [], ◌∷◌, ◌++◌, if◌then◌else◌, ◌≡◌,
}
use caterm.Prelude.Int.{ℤ}
use caterm.Text.{Text, codes}
use caterm.Text.Decimal.{to_string}
use caterm.Request.{SessionRequest}
use caterm.Cli.{Mode, Action}
use caterm.Cli.Write.Number.{i16_text, FitsI16}

-- The argument of an option that is there.
abbrev pub given : Option Text → List Text
given none = []
given (some text) = text ∷ []

abbrev pub gapless : Option Text → Option Text → Option Text → List Text
gapless none window pane = []
gapless (some session) none pane = session ∷ []
gapless (some session) (some window) pane = session ∷ window ∷ given pane

-- The subcommand with its arguments.
unfoldable pub words : SessionRequest → List Text
words (SessionRequest.attach session window pane) = codes "attach" ∷ gapless session window pane
words (SessionRequest.create_session name) = codes "new-session" ∷ given name
words (SessionRequest.create_window session name) = codes "new-window" ∷ session ∷ given name
words (SessionRequest.create_pane session window name) =
    codes "new-pane" ∷ session ∷ window ∷ given name
words (SessionRequest.split_horizontal session window name) =
    codes "split-horizontal" ∷ session ∷ window ∷ given name
words (SessionRequest.split_vertical session window name) =
    codes "split-vertical" ∷ session ∷ window ∷ given name
words (SessionRequest.select_window session target) = codes "select-window" ∷ session ∷ target ∷ []
words (SessionRequest.select_pane session window target) =
    codes "select-pane" ∷ session ∷ window ∷ target ∷ []
words (SessionRequest.rename_session target name) = codes "rename-session" ∷ target ∷ name ∷ []
words (SessionRequest.rename_window session target name) =
    codes "rename-window" ∷ session ∷ target ∷ name ∷ []
words (SessionRequest.rename_pane session window target name) =
    codes "rename-pane" ∷ session ∷ window ∷ target ∷ name ∷ []
words (SessionRequest.resize_pane session window target delta) =
    codes "resize-pane" ∷ session ∷ window ∷ target ∷ i16_text delta ∷ []
words (SessionRequest.delete_session target) = codes "kill-session" ∷ target ∷ []
words (SessionRequest.delete_window session target) = codes "kill-window" ∷ session ∷ target ∷ []
words (SessionRequest.delete_pane session window target) =
    codes "kill-pane" ∷ session ∷ window ∷ target ∷ []
words (SessionRequest.send_input session window pane input) =
    codes "send-input" ∷ session ∷ window ∷ pane ∷ input ∷ []
words SessionRequest.list = codes "list" ∷ []
words SessionRequest.stop = codes "stop" ∷ []
words SessionRequest.ping = []

-- There is no subcommand for a ping, an attached pane stands behind its window and its session, and
-- a change of size is an `i16`.
unfoldable pub IsSendable : SessionRequest → Type 0
IsSendable (SessionRequest.attach none window pane) = (window ≡ none) × (pane ≡ none)
IsSendable (SessionRequest.attach (some session) none pane) = pane ≡ none
IsSendable (SessionRequest.resize_pane session window target delta) = FitsI16 delta
IsSendable SessionRequest.ping = ⊥
IsSendable _ = Unit

-- The options that may stand before the subcommand of a client.
pub record Flags : Type 0 where
  pub socket_path : Option Text
  pub foreground : Bool
  pub daemonize : Bool

abbrev pub switch : Bool → Text → List Text → List Text
switch b name rest = if b then name ∷ rest else rest

abbrev pub socket_words : Option Text → List Text → List Text
socket_words none rest = rest
socket_words (some path) rest = codes "--socket" ∷ path ∷ rest

unfoldable pub command_line : Flags → SessionRequest → List Text
unfolding words
command_line f request =
    codes "caterm"
    ∷ socket_words f.socket_path (
        switch f.foreground (codes "--foreground")
          (switch f.daemonize (codes "--daemonize") (words request)))

-- What is asked of the daemon on that socket.
abbrev pub asked : Text → SessionRequest → Action
asked socket (SessionRequest.attach session window pane) =
    Action.run_attach_command socket session window pane
asked socket request = Action.run_client_command socket request
