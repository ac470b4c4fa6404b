-- ===== src/Server/Dispatch/Sound.antt =====
-- Every request keeps the invariant of the hierarchy.
use caterm.Prelude.{refl}
use caterm.Text.{Text}
use caterm.Outcome.{err, lift}
use caterm.Pty.{Host}
use caterm.Request.{SessionRequest}
use caterm.Server.State.{Server, CommandOutcome}
use caterm.Server.Create.{create_pane, split_pane}
use caterm.Server.Create.Sound.{create_session-Sound}
use caterm.Server.Create.WindowSound.{create_window-Sound}
use caterm.Server.Create.PaneSound.{create_pane_with_layout-Sound}
use caterm.Server.Select.Sound.{select_window-Sound, select_pane-Sound}
use caterm.Server.Select.RenameSound.{rename_session-Sound, rename_window-Sound, rename_pane-Sound}
use caterm.Server.Select.ResizeSound.{resize_pane-Sound}
use caterm.Server.Delete.Sound.{delete_session-Sound, delete_window-Sound}
use caterm.Server.Dispatch.{perform}
use caterm.Server.Valid.{ServerOk, HasRoom}
use caterm.Server.Valid.Rules.{Sound, Sound-gets_last, Sound-pure_last}

-- Requests whose failure comes before every change to the hierarchy.
abbrev pub FailsFirst : SessionRequest → Type 0
FailsFirst (SessionRequest.delete_pane session window target) = ⊥
FailsFirst (SessionRequest.send_input session window pane input) = ⊥
FailsFirst other = Unit {0}

refused :
    (s : Server) (message : Text) → ServerOk s → Sound {A = CommandOutcome} s (lift (err message) s)
unfolding Sound lift
refused s message valid = (valid, refl)

-- From a valid state, with room in the counters and fewer than 65535 panes in each window, the method
-- of a request other than the deletion of a pane and the input to one returns in a valid state, or fails
-- with every session as it was; it does not panic. What is collected before it in `handle_request` is
-- not part of it.
pub perform-Sound :
    (host : Host) (request : SessionRequest) (s : Server)
    → FailsFirst request
    → ServerOk s
    → HasRoom s
    → Sound s (perform host request s)
unfolding perform create_pane split_pane
perform-Sound host (SessionRequest.attach session window pane) s h valid room = refused s _ valid
perform-Sound host (SessionRequest.create_session name) s h valid room =
    create_session-Sound host name s valid room
perform-Sound host (SessionRequest.create_window session name) s h valid room =
    create_window-Sound host session name s valid room
perform-Sound host (SessionRequest.create_pane session window name) s h valid room =
    create_pane_with_layout-Sound host session window name _ s valid room
perform-Sound host (SessionRequest.split_horizontal session window name) s h valid room =
    create_pane_with_layout-Sound host session window name _ s valid room
perform-Sound host (SessionRequest.split_vertical session window name) s h valid room =
    create_pane_with_layout-Sound host session window name _ s valid room
perform-Sound host (SessionRequest.select_window session target) s h valid room =
    select_window-Sound session target s valid
perform-Sound host (SessionRequest.select_pane session window target) s h valid room =
    select_pane-Sound session window target s valid
perform-Sound host (SessionRequest.rename_session target name) s h valid room =
    rename_session-Sound target name s valid
perform-Sound host (SessionRequest.rename_window session target name) s h valid room =
    rename_window-Sound session target name s valid
perform-Sound host (SessionRequest.rename_pane session window target name) s h valid room =
    rename_pane-Sound session window target name s valid
perform-Sound host (SessionRequest.resize_pane session window target delta) s h valid room =
    resize_pane-Sound session window target delta s valid
perform-Sound host (SessionRequest.delete_session target) s h valid room =
    delete_session-Sound host target s valid
perform-Sound host (SessionRequest.delete_window session target) s h valid room =
    delete_window-Sound host session target s valid
perform-Sound host (SessionRequest.delete_pane session window target) s h valid room = absurd h
perform-Sound host (SessionRequest.send_input session window pane input) s h valid room = absurd h
perform-Sound host SessionRequest.list s h valid room = Sound-gets_last s s _ valid
perform-Sound host SessionRequest.stop s h valid room = Sound-pure_last s s _ valid
perform-Sound host SessionRequest.ping s h valid room = Sound-pure_last s s _ valid
