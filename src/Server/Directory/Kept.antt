-- ===== src/Server/Directory/Kept.antt =====
-- Requests on windows and panes leave the sessions with their names.
use caterm.Prelude.{ℕ, Bool, true, false, Option, none, some, ◌≡◌, arith}
use caterm.Text.{Text}
use caterm.Outcome.{◌>>=◌}
use caterm.Session.{Session}
use caterm.Window.{WindowLayout, horizontal, vertical}
use caterm.Pty.{Host}
use caterm.Server.State.{Server}
use caterm.Server.Select.{
  resize_pane, select_window, select_pane, rename_window, rename_pane, activate_window,
}
use caterm.Prelude.Int.{ℤ}
use caterm.Request.{SessionRequest}
use caterm.Server.Dispatch.{perform, handle_request}
use caterm.Server.Create.{create_window, create_pane_with_layout, create_pane, split_pane}
use caterm.Server.Delete.{delete_window, delete_pane, send_input}
use caterm.Server.Directory.{name_of}
use caterm.Server.Directory.Names.{SameNames-refl, SameNames-trans}
use caterm.Server.Directory.Rules.{Tame, Tame-then, Tame-collect, tame_rules}

activate_window-name :
    (wid : ℕ) (session : Session) → (activate_window wid session).name ≡ session.name
unfolding activate_window
activate_window-name wid session = ground arith

select_window-SameNames : (a b : Text) (s : Server) → Tame s (select_window a b s)
unfolding select_window
select_window-SameNames a b s = search (tame_rules, activate_window-name) depth 12

select_pane-SameNames : (a b c : Text) (s : Server) → Tame s (select_pane a b c s)
unfolding select_pane
select_pane-SameNames a b c s = search tame_rules depth 12

rename_window-SameNames : (a b c : Text) (s : Server) → Tame s (rename_window a b c s)
unfolding rename_window
rename_window-SameNames a b c s = search tame_rules depth 12

rename_pane-SameNames : (a b c d : Text) (s : Server) → Tame s (rename_pane a b c d s)
unfolding rename_pane
rename_pane-SameNames a b c d s = search tame_rules depth 12

create_window-SameNames :
    (host : Host) (a : Text) (b : Option Text) (s : Server) → Tame s (create_window host a b s)
unfolding create_window
create_window-SameNames host a b s = search tame_rules depth 18

create_pane-SameNames :
    (host : Host) (a b : Text) (c : Option Text) (d : Option WindowLayout) (s : Server)
    → Tame s (create_pane_with_layout host a b c d s)
unfolding create_pane_with_layout
create_pane-SameNames host a b c d s = search tame_rules depth 18

resize_pane-SameNames : (a b c : Text) (delta : ℤ) (s : Server) → Tame s (resize_pane a b c delta s)
unfolding resize_pane
resize_pane-SameNames a b c delta s = search tame_rules depth 12

delete_window-SameNames :
    (host : Host) (a b : Text) (s : Server) → Tame s (delete_window host a b s)
unfolding delete_window
delete_window-SameNames host a b s = search tame_rules depth 18

delete_pane-SameNames :
    (host : Host) (a b c : Text) (s : Server) → Tame s (delete_pane host a b c s)
unfolding delete_pane
delete_pane-SameNames host a b c s = search tame_rules depth 18

send_input-SameNames :
    (host : Host) (a b c d : Text) (s : Server) → Tame s (send_input host a b c d s)
unfolding send_input
send_input-SameNames host a b c d s = search tame_rules depth 18

-- The requests that do not create, rename or delete a session.
abbrev pub spares_sessions : SessionRequest → Bool
spares_sessions (SessionRequest.create_session name) = false
spares_sessions (SessionRequest.rename_session target name) = false
spares_sessions (SessionRequest.delete_session target) = false
spares_sessions request = true

pub perform-SameNames :
    (host : Host) (request : SessionRequest) (s : Server)
    → spares_sessions request ≡ true
    → Tame s (perform host request s)
unfolding perform create_pane split_pane Tame ◌>>=◌
perform-SameNames host (SessionRequest.attach a b c) s spares = SameNames-refl s
perform-SameNames host (SessionRequest.create_session a) s spares = absurd (ground arith)
perform-SameNames host (SessionRequest.create_window a b) s spares =
    create_window-SameNames host a b s
perform-SameNames host (SessionRequest.create_pane a b c) s spares =
    create_pane-SameNames host a b c none s
perform-SameNames host (SessionRequest.split_horizontal a b c) s spares =
    create_pane-SameNames host a b c (some horizontal) s
perform-SameNames host (SessionRequest.split_vertical a b c) s spares =
    create_pane-SameNames host a b c (some vertical) s
perform-SameNames host (SessionRequest.select_window a b) s spares = select_window-SameNames a b s
perform-SameNames host (SessionRequest.select_pane a b c) s spares = select_pane-SameNames a b c s
perform-SameNames host (SessionRequest.rename_session a b) s spares = absurd (ground arith)
perform-SameNames host (SessionRequest.rename_window a b c) s spares =
    rename_window-SameNames a b c s
perform-SameNames host (SessionRequest.rename_pane a b c d) s spares =
    rename_pane-SameNames a b c d s
perform-SameNames host (SessionRequest.resize_pane a b c d) s spares =
    resize_pane-SameNames a b c d s
perform-SameNames host (SessionRequest.delete_session a) s spares = absurd (ground arith)
perform-SameNames host (SessionRequest.delete_window a b) s spares =
    delete_window-SameNames host a b s
perform-SameNames host (SessionRequest.delete_pane a b c) s spares =
    delete_pane-SameNames host a b c s
perform-SameNames host (SessionRequest.send_input a b c d) s spares =
    send_input-SameNames host a b c d s
perform-SameNames host SessionRequest.list s spares = SameNames-refl s
perform-SameNames host SessionRequest.stop s spares = SameNames-refl s
perform-SameNames host SessionRequest.ping s spares = SameNames-refl s

-- A request that does not create, rename or delete a session leaves the set of the sessions' ids and
-- each session's name as they were, whether it is answered, fails or panics, and whatever output and
-- exits are collected before it.
pub handle_request-spares :
    (host : Host) (request : SessionRequest) (s : Server)
    → spares_sessions request ≡ true
    → (j : ℕ) → name_of (handle_request host request s).1 j ≡ name_of s j
unfolding handle_request Tame ◌>>=◌
handle_request-spares host request s spares j =
    (Tame-collect s (host.poll 0) _ s (SameNames-refl s) (λ events next same.
        let after = SameNames-trans s next _ same (perform-SameNames host request next spares) in
        Tame-then s (perform host request) _ next after (λ outcome. after))).at
      j
