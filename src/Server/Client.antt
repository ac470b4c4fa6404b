-- ===== src/Server/Client.antt =====
-- Attached clients: what each regards as active, and the delivery of events to them.
pub mod Delivery
use caterm.Prelude.{
  ℕ, Bool, true, false, not, ◌&&◌, Option, none, some, List, [], ◌∷◌, ◌++◌, any, find, first,
  is_empty, is_id, is_some, map_opt, and_then, or_else, unwrap_or, filter_opt, if◌then◌else◌,
}
use caterm.Outcome.{Outcome, ok, err, reads, gets, modify, pure, ◌>>=◌, ◌>>◌}
use caterm.BTree.{BTree, get, insert, values, keys, contains_key}
use caterm.Snapshot.{ServerSnapshot}
use caterm.Pane.{Pane}
use caterm.Window.{Window}
use caterm.Session.{Session}
use caterm.Event.{ServerEvent, pty_output_snapshot}
use caterm.Request.{SessionRequest}
use caterm.Server.State.{
  AttachFilter, ClientState, Subscriber, Server, Handler, snapshot, next_id, find_window,
}
use caterm.Server.Resolve.{resolve_attach_filter}
use caterm.Server.Filter.{
  matches_session, matches_window, matches_pane, matches_event, filter_snapshot,
}

-- `active.is_some() && active != Some(id)` negated
abbrev pub agrees : Option ℕ → ℕ → Bool
agrees none id = true
agrees (some active) id = is_id (some active) id

unfoldable pub session_exists : BTree Session → AttachFilter → ℕ → Bool
session_exists sessions filter sid = matches_session filter sid && contains_key sid sessions

unfoldable pub window_exists : BTree Session → AttachFilter → Option ℕ → ℕ → Bool
window_exists sessions filter active_session wid =
    any
      (λ session.
        agrees active_session session.id
        && unwrap_or
            (map_opt (λ window. matches_window filter session.id window.id)
              (get wid session.windows))
            false)
      (values sessions)

abbrev pub pane_in_window : AttachFilter → ℕ → Option ℕ → ℕ → Window → Bool
pane_in_window filter sid active_window pid window =
    agrees active_window window.id
    && unwrap_or
        (map_opt (λ pane. matches_pane filter sid window.id pane.id) (get pid window.panes)) false

unfoldable pub pane_exists : BTree Session → AttachFilter → Option ℕ → Option ℕ → ℕ → Bool
pane_exists sessions filter active_session active_window pid =
    any
      (λ session.
        agrees active_session session.id
        && any (pane_in_window filter session.id active_window pid) (values session.windows))
      (values sessions)

unfoldable pub default_session_id : BTree Session → AttachFilter → Option ℕ
default_session_id sessions filter = or_else filter.session_id (first (keys sessions))

abbrev pub default_window_of : AttachFilter → ℕ → Session → Option ℕ
default_window_of filter sid session =
    or_else (filter_opt (matches_window filter sid) session.active_window_id) (
      map_opt (λ window. window.id)
        (find (λ window. matches_window filter sid window.id) (values session.windows)))

unfoldable pub default_window_id : BTree Session → AttachFilter → Option ℕ → Option ℕ
default_window_id sessions filter active_session =
    or_else filter.window_id
      (and_then active_session (λ sid. and_then (get sid sessions) (default_window_of filter sid)))

abbrev pub default_pane_of : AttachFilter → ℕ → Window → Option ℕ
default_pane_of filter sid window =
    or_else (filter_opt (matches_pane filter sid window.id) window.active_pane_id) (
      map_opt (λ pane. pane.id)
        (find (λ pane. matches_pane filter sid window.id pane.id) (values window.panes)))

unfoldable pub default_pane_id : BTree Session → AttachFilter → Option ℕ → Option ℕ → Option ℕ
default_pane_id sessions filter active_session active_window = or_else filter.pane_id (
    and_then (and_then active_session (λ sid. get sid sessions)) (λ session.
      and_then (and_then active_window (λ wid. get wid session.windows))
        (default_pane_of filter session.id)))

-- An active id that passes its test stays, any other gives way to the default.
abbrev pub keep_or : Option ℕ → (ℕ → Bool) → Option ℕ → Option ℕ
keep_or active exists default = if unwrap_or (map_opt exists active) false then active else default

unfoldable pub refresh_client_state : BTree Session → ClientState → ClientState
refresh_client_state sessions state =
    let filter = state.filter in
    let sid =
      keep_or state.active_session_id (session_exists sessions filter)
        (default_session_id sessions filter) in
    let wid =
      keep_or state.active_window_id (window_exists sessions filter sid)
        (default_window_id sessions filter sid) in
    record state {
      active_session_id = sid;
      active_window_id = wid;
      active_pane_id =
          keep_or state.active_pane_id (pane_exists sessions filter sid wid)
            (default_pane_id sessions filter sid wid);
    }

unfoldable pub build_client_state : BTree Session → AttachFilter → ClientState
build_client_state sessions filter = refresh_client_state sessions (record {
  filter = filter;
  active_session_id = filter.session_id;
  active_window_id = filter.window_id;
  active_pane_id = filter.pane_id;
})

unfoldable pub snapshot_for_client : ServerSnapshot → ClientState → ServerSnapshot
snapshot_for_client view state = record (filter_snapshot view state.filter) {
  active_session_id = state.active_session_id;
  active_window_id = state.active_window_id;
  active_pane_id = state.active_pane_id;
}

-- A snapshot event is replaced by the client's own view of the present state.
abbrev pub outbound : ServerSnapshot → ClientState → ServerEvent → ServerEvent
outbound base state (ServerEvent.snapshot view) =
    ServerEvent.snapshot (snapshot_for_client base state)
outbound base state event = event

-- The loop over the events for one subscriber; none drops the subscriber.
unfoldable pub deliver : ServerSnapshot → List ServerEvent → Subscriber → Option Subscriber
deliver base [] subscriber = some subscriber
deliver base (event ∷ events) subscriber =
    let skipped = deliver base events subscriber in
    let sent = deliver base events (record subscriber {
      events = subscriber.events ++ outbound base subscriber.client_state event ∷ [];
    }) in
    if not (matches_event subscriber.client_state.filter event)
    then skipped
    else if subscriber.closed
    then none
    else sent

abbrev pub refreshed : BTree Session → Subscriber → Subscriber
refreshed sessions subscriber = record subscriber {
  client_state = refresh_client_state sessions subscriber.client_state;
}

unfoldable pub deliver_all :
    BTree Session → ServerSnapshot → List ServerEvent → BTree Subscriber → BTree Subscriber
deliver_all sessions base events [] = []
deliver_all sessions base events ((k, subscriber) ∷ others) =
    let rest = deliver_all sessions base events others in
    elim (deliver base events (refreshed sessions subscriber)) [
      | none ↦ rest
      | some served ↦ (k, served) ∷ rest
    ]

unfoldable pub broadcast_events : List ServerEvent → Server → Server
broadcast_events events s = record s {
  subscribers = deliver_all s.sessions (snapshot s) events s.subscribers;
}

-- `snapshot_output_events`, pane by pane, window by window, session by session.
unfoldable pub history_of_panes : AttachFilter → ℕ → ℕ → BTree Pane → List ServerEvent
history_of_panes filter sid wid [] = []
history_of_panes filter sid wid ((pid, pane) ∷ panes) =
    let rest = history_of_panes filter sid wid panes in
    if not (matches_pane filter sid wid pid)
    then rest
    else if is_empty pane.output_history
    then rest
    else pty_output_snapshot sid wid pid pane.output_history ∷ rest

unfoldable pub history_of_windows : AttachFilter → ℕ → BTree Window → List ServerEvent
history_of_windows filter sid [] = []
history_of_windows filter sid ((wid, window) ∷ windows) =
    history_of_panes filter sid wid window.panes ++ history_of_windows filter sid windows

unfoldable pub snapshot_output_events : AttachFilter → BTree Session → List ServerEvent
snapshot_output_events filter [] = []
snapshot_output_events filter ((sid, session) ∷ sessions) =
    history_of_windows filter sid session.windows ++ snapshot_output_events filter sessions

abbrev pub first_view : Server → AttachFilter → ClientState → Subscriber
first_view s filter state = record {
  client_state = state;
  events =
      ServerEvent.snapshot (snapshot_for_client (snapshot s) state)
      ∷ snapshot_output_events filter s.sessions;
  closed = false;
}

-- The answer is the subscriber's id; its channel already holds the first view.
unfoldable pub attach_client : SessionRequest → Handler ℕ
attach_client request = do
  filter ← reads (λ s. resolve_attach_filter s request)
  state ← gets (λ s. build_client_state s.sessions filter)
  subscriber_id ← gets (λ s. s.next_subscriber_id)
  modify (λ s. record s { next_subscriber_id = next_id subscriber_id })
  view ← gets (λ s. first_view s filter state)
  modify (λ s. record s { subscribers = insert subscriber_id view s.subscribers })
  pure subscriber_id
