-- ===== src/Examples/Lifecycles.antt =====
-- Daemons that start, die and stop, and the routes of the relay.
use caterm.Prelude.{
  ℕ, true, false, ◌&&◌, any, ◌==◌, List, [], ◌∷◌, ◌++◌, if◌then◌else◌, ◌≡◌, refl, ◌⊎◌, arith,
}
use caterm.Text.{Text, codes, text_eq, ends_with}
use caterm.Outcome.{ok, err, ◌>>=◌}
use caterm.BTree.{values, insert, remove}
use caterm.Local.{unreachable, send_client_request}
use caterm.Daemon.Paths.{metadata_path, state_path}
use caterm.Daemon.Files.{Files, Disk, missing, read_metadata, write_metadata, remove_metadata}
use caterm.Daemon.Lifecycle.{
  stale, cleanup_stale_socket, open_daemon, close_daemon, daemon_status, already_running,
  is_server_running, remove_socket,
}
use caterm.Daemon.Laws.{
  lives, cleared, opened, cleanup_stale_socket_lem, cleanup_stale_socket-stale, open_daemon_lem,
}
use caterm.Relay.Auth.{daemon}
use caterm.Relay.Handshake.{register, unregister}
use caterm.Relay.Routing.{
  attach_daemon, attach_client, detach_daemon, detach_client, lookup, erase, daemon_tx, client_txs,
  no_route,
}
use caterm.Relay.Routing.Laws.{Change, daemon_in, daemon_out, client_in, apply, apply_all}
use caterm.Relay.Routing.Refine.{follow, apply_all-follow}
use caterm.Relay.Forward.{Turn, message, recipients, forward, run_socket}
use caterm.Relay.Forward.Isolation.{registers, peer, joins, seen, run_socket-registers}

abbrev sock : Text
sock = codes "/tmp/caterm.sock"

metadata_path-sock : metadata_path sock ≡ codes "/tmp/caterm.sock.meta.json"
unfolding metadata_path text_eq ends_with
metadata_path-sock = refl

state_path-sock : state_path (codes "run/caterm.sock/.") ≡ codes "run/caterm.sock.state.json"
unfolding metadata_path state_path text_eq ends_with
state_path-sock = refl

-- Only the process 7 is alive.
abbrev disk : Disk
disk = record {
  read_fails = false;
  write_fails = false;
  write_tears = true;
  remove_fails = false;
  remove_socket_fails = false;
  create_fails = false;
  bind_fails = false;
  pid_is_alive = λ pid. pid == 7;
}

abbrev nothing : Files
nothing = record { socket = false; metadata = missing; state = missing }

abbrev crashed : Files
crashed = opened sock 9 nothing

cleanup_stale_socket_lem_example :
    let (r, f') = cleanup_stale_socket disk sock crashed in
    ((r ≡ ok tt) × (lives disk crashed ≡ false) × (f' ≡ cleared crashed))
    ⊎ ((text : Text) × (r ≡ err text) × (f' ≡ crashed))
    ⊎ ((text : Text) × (r ≡ err text)
        × (lives disk crashed ≡ false)
        × (f' ≡ record crashed { socket = false }))
cleanup_stale_socket_lem_example = cleanup_stale_socket_lem disk sock crashed

asked :
    daemon_status disk sock unreachable crashed ≡ (ok (stale 9 (metadata_path sock) true), crashed)
unfolding daemon_status read_metadata is_server_running send_client_request ◌>>=◌
asked = refl

cleanup_stale_socket-stale_example : cleanup_stale_socket disk sock crashed ≡ (
    if disk.pid_is_alive 9 && true
    then (err (already_running sock 9), crashed)
    else (ok tt, cleared crashed))
cleanup_stale_socket-stale_example =
    cleanup_stale_socket-stale disk sock unreachable crashed 9 true asked (omega arith) refl refl

started : open_daemon disk sock 9 nothing ≡ (ok tt, crashed)
unfolding open_daemon cleanup_stale_socket read_metadata write_metadata remove_metadata
    remove_socket ◌>>=◌
started = refl

open_daemon_lem_example :
    (crashed ≡ opened sock 9 nothing)
    × (open_daemon disk sock 11 crashed ≡ (
        if disk.pid_is_alive 9
        then (err (already_running sock 9), crashed)
        else (ok tt, opened sock 11 crashed)))
    × (close_daemon disk sock crashed ≡ cleared nothing)
open_daemon_lem_example = open_daemon_lem disk sock 9 11 nothing crashed started refl refl

abbrev comings : List Change
comings =
    daemon_in (codes "home") 1
    ∷ client_in (codes "home") 5 2
    ∷ daemon_in (codes "work") 3
    ∷ daemon_out (codes "home")
    ∷ []

apply_all-follow_example :
    (daemon_tx (codes "home") (apply_all comings [])
      ≡ (follow (codes "home") comings no_route).daemon)
    × (client_txs (codes "home") (apply_all comings [])
        ≡ values (follow (codes "home") comings no_route).clients)
apply_all-follow_example = apply_all-follow (codes "home") comings

abbrev turns : List Turn
turns = ([], message 4) ∷ (client_in (codes "home") 6 8 ∷ [], message 5) ∷ []

reached :
    any (λ (s : ℕ × ℕ). s.0 == 8) (run_socket daemon (codes "home") 0 1 turns (apply_all [] [])).0
    ≡ true
unfolding run_socket register unregister attach_daemon attach_client detach_daemon detach_client
    lookup erase client_txs values insert remove recipients forward apply_all apply text_eq
reached = refl

run_socket-registers_example :
    any
      (registers (peer daemon) (codes "home") 8)
      ([] ++ (joins daemon (codes "home") 0 1 ∷ seen turns))
    ≡ true
run_socket-registers_example = run_socket-registers daemon (codes "home") 0 1 8 turns [] reached
