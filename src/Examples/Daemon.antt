-- ===== src/Examples/Daemon.antt =====
-- Runs of the daemon on the samples.
use caterm.Prelude.{ℕ, ◌+◌, ◌<◌, ◌≤◌, some, length, ◌≡◌, refl, none, some, [], arith, ◌⊎◌, true}
use caterm.Text.{codes, text_eq}
use caterm.Text.Decimal.{parse_u64}
use caterm.Outcome.{ok}
use caterm.BTree.{get, values}
use caterm.Window
use caterm.Window.{Window, horizontal, as_str}
use caterm.Session.{Session}
use caterm.Request.{SessionRequest}
use caterm.Server.State.{find_window, Server, snapshot, new_server, session_at}
use caterm.Server.Resolve.{resolve_window_id}
use caterm.Server.Resolve.Targets.{resolve_window_id_lem}
use caterm.Server.Runtime.{collect_runtime_events}
use caterm.Server.Runtime.Valid.{collect_runtime_events-SameServer}
use caterm.Server.Delete.{delete_pane}
use caterm.Server.Delete.PaneSound.{delete_pane-Keeps}
use caterm.Server.Dispatch.{Daemon, perform, handle_request, run_command}
use caterm.Server.Dispatch.Run.{start, turn, commanded}
use caterm.Server.Directory.Runs.{Run-free}
use caterm.Roster.{Roster-empty}
use caterm.Server.Dispatch.Sound.{perform-Sound}
use caterm.Server.Dispatch.Invariant.{handle_request-ServerOk}
use caterm.Server.Directory.{name_of}
use caterm.Server.Directory.Kept.{handle_request-spares}
use caterm.Server.Restore.RoundTrip.{map_values, reopen_session, restore_state-snapshot}
use caterm.Server.Restore.{restore_state, shutdown_all}
use caterm.Server.Restore.Laws.{shutdown_all-empty}
use caterm.Server.Valid.{ServerOk, HasRoom}
use caterm.Server.Valid.Alike.{SameServer}
use caterm.Server.Valid.Rules.{Sound}
use caterm.Server.Valid.Keeps.{Keeps}
use caterm.Examples.Samples.{host, quiet, config, server, server-ServerOk, server-HasRoom}

handle_request-ServerOk_example :
    ServerOk
      (handle_request host
        (SessionRequest.send_input (codes "work") (codes "main") (codes "left") (codes "ls\n"))
        server).1
handle_request-ServerOk_example =
    handle_request-ServerOk host
      (SessionRequest.send_input (codes "work") (codes "main") (codes "left") (codes "ls\n")) server
      server-ServerOk server-HasRoom

handle_request-spares_example :
    name_of (handle_request host (SessionRequest.create_window (codes "work") none) server).1 1
    ≡ name_of server 1
handle_request-spares_example =
    handle_request-spares host (SessionRequest.create_window (codes "work") none) server refl 1

perform-Sound_example :
    Sound server
      (perform host (SessionRequest.split_horizontal (codes "1") (codes "main") none) server)
perform-Sound_example =
    perform-Sound host (SessionRequest.split_horizontal (codes "1") (codes "main") none) server tt
      server-ServerOk server-HasRoom

delete_pane-Keeps_example :
    Keeps (delete_pane host (codes "work") (codes "main") (codes "left") server)
delete_pane-Keeps_example =
    delete_pane-Keeps host (codes "work") (codes "main") (codes "left") server server-ServerOk
      server-HasRoom

resolve_window : resolve_window_id server 1 (codes "main") ≡ ok 1
unfolding resolve_window_id session_at get parse_u64 values Window.matches_target text_eq
resolve_window = refl

resolve_window_id_lem_example :
    (session : Session) × (window : Window) × (get 1 server.sessions ≡ some session)
    × (get 1 session.windows ≡ some window)
    × ((parse_u64 (codes "main") ≡ some 1) ⊎ (Window.matches_target window (codes "main") ≡ true))
resolve_window_id_lem_example =
    resolve_window_id_lem server 1 1 (codes "main") server-ServerOk resolve_window

collect_runtime_events-SameServer_example :
    SameServer server (collect_runtime_events quiet server).1
collect_runtime_events-SameServer_example = collect_runtime_events-SameServer quiet server

shutdown_all-empty_example : (shutdown_all host server).sessions ≡ []
shutdown_all-empty_example = shutdown_all-empty host server server-ServerOk (omega arith)

restore_state-snapshot_example :
    (t : Server) × (restore_state host (some (snapshot server)) (new_server config) ≡ ok t)
    × (t.sessions ≡ map_values (reopen_session (λ id. id)) server.sessions)
restore_state-snapshot_example =
    restore_state-snapshot host (λ id. id) server (new_server config) (λ id shell cols rows. refl)
      server-ServerOk

-- The server behind the end of its only session, which had the id 1.
abbrev emptied : Daemon
emptied = record { server = record server { sessions = [] }; state_file = none }

emptied-few :
    (sid wid : ℕ) (window : Window)
    → find_window emptied.server.sessions sid wid ≡ some window
    → length window.panes + 1 < 65536
unfolding get
emptied-few sid wid window e = absurd (ground arith)

emptied-HasRoom : HasRoom emptied.server
emptied-HasRoom = record {
  sessions = omega arith;
  windows = omega arith;
  panes = omega arith;
  few = emptied-few;
}

abbrev create_next : SessionRequest
create_next = SessionRequest.create_session none

Run-free_example :
    (2 ≤ (run_command host create_next emptied).1.server.next_session_id)
    × ((j : ℕ)
        → j < 2
        → name_of emptied.server j ≡ none
        → name_of (run_command host create_next emptied).1.server j ≡ none)
Run-free_example =
    Run-free emptied (run_command host create_next emptied).1
      (record { sessions = Roster-empty _ _ _ 2 })
      (turn start emptied-HasRoom (commanded host create_next))
