-- ===== src/Examples/Clients.antt =====
-- Clients, errors and the relay on concrete inputs.
use caterm.Prelude.{
  ◌≡◌, refl, ◌⊎◌, ◌↔◌, Bool, true, false, none, some, List, [], ◌∷◌, any, All, if◌then◌else◌,
}
use caterm.Text.{Text, codes}
use caterm.Outcome.{ok}
use caterm.Event.{ServerEvent}
use caterm.ErrorCode.{classify_error}
use caterm.ErrorCode.Messages.{code_of_taken, classify_error-taken}
use caterm.Server.State.{AttachFilter, Subscriber, snapshot}
use caterm.Server.Create.{session_taken, window_taken, pane_taken}
use caterm.Server.Client.{deliver}
use caterm.Server.Client.Delivery.{inbox, received, deliver_open, deliver_closed}
use caterm.Server.Filter.{matches_event, filter_snapshot}
use caterm.Server.Filter.Visible.{SessionVisible, filter_snapshot-All}
use caterm.Relay.Auth.{RelayAuth, daemon, authorize, secret_of, authorize_lem}
use caterm.Relay.Routing.{RoutingTable, attach_daemon, detach_daemon, daemon_tx}
use caterm.Relay.Routing.Laws.{
  NoIdle, apply_all, Change, daemon_in, daemon_out, client_in, client_out, apply_all-NoIdle,
  detach_daemon-newer,
}
use caterm.Examples.Samples.{server}

abbrev left_only : AttachFilter
left_only = record { session_id = some 1; window_id = some 1; pane_id = some 1 }

abbrev watcher : Bool → Subscriber
watcher gone = record {
  client_state = record {
    filter = left_only;
    active_session_id = some 1;
    active_window_id = some 1;
    active_pane_id = some 1;
  };
  events = [];
  closed = gone;
}

abbrev output : List ServerEvent
output =
    ServerEvent.pty_output 1 1 1 (codes "a")
    ∷ ServerEvent.pty_output 1 1 2 (codes "b")
    ∷ ServerEvent.snapshot (snapshot server)
    ∷ []

deliver_open_example :
    deliver (snapshot server) output (watcher false)
    ≡ some (received (watcher false) (inbox (snapshot server) (watcher false).client_state output))
deliver_open_example = deliver_open (snapshot server) output (watcher false) refl

deliver_closed_example :
    deliver (snapshot server) output (watcher true)
    ≡ (if any (matches_event left_only) output then none else some (watcher true))
deliver_closed_example = deliver_closed (snapshot server) output (watcher true) refl

filter_snapshot-All_example :
    All (SessionVisible left_only) (filter_snapshot (snapshot server) left_only).sessions
filter_snapshot-All_example = filter_snapshot-All (snapshot server) left_only

classify_error-taken_example :
    (classify_error (session_taken (codes "not found"))
      ≡ code_of_taken
          (codes "session_not_found")
          (codes "duplicate_session_name")
          (codes "not found"))
    × (classify_error (window_taken 1 (codes "not found"))
        ≡ code_of_taken
            (codes "window_not_found")
            (codes "duplicate_window_name")
            (codes "not found"))
    × (classify_error (pane_taken 1 (codes "not found"))
        ≡ code_of_taken (codes "pane_not_found") (codes "duplicate_pane_name") (codes "not found"))
classify_error-taken_example = classify_error-taken 1 (codes "not found")

abbrev auth : RelayAuth
auth = record { daemon_api_key = some (codes "key"); client_share_token = none }

authorize_lem_example : authorize auth daemon (some (codes "key")) ≡ ok tt ↔ (
    (secret_of auth daemon ≡ none)
    ⊎ ((t : Text) × (secret_of auth daemon ≡ some t) × (some (codes "key") ≡ some t)))
authorize_lem_example = authorize_lem auth daemon (some (codes "key"))

abbrev visits : List Change
visits =
    daemon_in (codes "home") 1
    ∷ client_in (codes "home") 7 2
    ∷ daemon_out (codes "home")
    ∷ client_out (codes "home") 7
    ∷ []

apply_all-NoIdle_example : NoIdle (apply_all visits [])
apply_all-NoIdle_example = apply_all-NoIdle visits

abbrev one_client : RoutingTable
one_client = (codes "home", record { daemon = some 1; clients = (7, 2) ∷ [] }) ∷ []

detach_daemon-newer_example :
    daemon_tx (codes "home") (
      detach_daemon
        (codes "home")
        (attach_daemon (codes "home") 4 (attach_daemon (codes "home") 3 one_client)))
    ≡ none
detach_daemon-newer_example = detach_daemon-newer (codes "home") 3 4 one_client
