-- ===== src/Server/State.antt =====
-- The state of `SessionManagerServer`, its snapshot and the lookups that report what is missing.
use caterm.Prelude.{ℕ, ◌+◌, ◌%◌, ◌^◌, Bool, Option, none, some, List, [], ◌++◌, map, and_then}
use caterm.Text.{Text, codes}
use caterm.Text.Decimal.{to_string}
use caterm.Outcome.{Outcome, Method, ok_or}
use caterm.BTree.{BTree, get, insert, values}
use caterm.Snapshot.{ServerSnapshot}
use caterm.Pty.{PtySession}
use caterm.Pane.{Pane}
use caterm.Window.{Window}
use caterm.Session
use caterm.Session.{Session}
use caterm.Event.{ServerEvent}
use caterm.Command.{CommandResult}

pub record AttachFilter : Type 0 where
  pub session_id : Option ℕ
  pub window_id : Option ℕ
  pub pane_id : Option ℕ

pub record ClientState : Type 0 where
  pub filter : AttachFilter
  pub active_session_id : Option ℕ
  pub active_window_id : Option ℕ
  pub active_pane_id : Option ℕ

-- `events` is what has been sent on `events_tx`; `closed` says that its receiver is gone.
pub record Subscriber : Type 0 where
  pub client_state : ClientState
  pub events : List ServerEvent
  pub closed : Bool

-- The part of `DaemonConfig` that starts a shell.
pub record ShellConfig : Type 0 where
  pub shell : Text
  pub cols : ℕ
  pub rows : ℕ

-- `ended` is not in the source: the shells that were terminated and awaited, as the system sees them.
pub record Server : Type 0 where
  pub config : ShellConfig
  pub sessions : BTree Session
  pub next_session_id : ℕ
  pub next_window_id : ℕ
  pub next_pane_id : ℕ
  pub next_subscriber_id : ℕ
  pub subscribers : BTree Subscriber
  pub ended : List PtySession

-- `SessionManagerServer::new`
unfoldable pub new_server : ShellConfig → Server
new_server config = record {
  config = config;
  sessions = [];
  next_session_id = 1;
  next_window_id = 1;
  next_pane_id = 1;
  next_subscriber_id = 1;
  subscribers = [];
  ended = [];
}

abbrev pub Handler : Type 0 → Type 0
Handler A = Method Server A

pub record CommandOutcome : Type 0 where
  pub result : CommandResult
  pub broadcast_events : List ServerEvent

-- A `u64` counter, which wraps as in a release build.
abbrev pub next_id : ℕ → ℕ
next_id id = (id + 1) % 2 ^ 64

unfoldable pub snapshot : Server → ServerSnapshot
snapshot s = record {
  active_session_id = none;
  active_window_id = none;
  active_pane_id = none;
  sessions = map Session.snapshot (values s.sessions);
}

abbrev pub snapshot_event : Server → ServerEvent
snapshot_event s = ServerEvent.snapshot (snapshot s)

abbrev pub session_missing : ℕ → Text
session_missing id = codes "session " ++ (to_string id ++ codes " not found")

abbrev pub window_missing : ℕ → Text
window_missing id = codes "window " ++ (to_string id ++ codes " not found")

abbrev pub find_window : BTree Session → ℕ → ℕ → Option Window
find_window sessions sid wid = and_then (get sid sessions) (λ session. get wid session.windows)

abbrev pub find_pane : BTree Session → ℕ → ℕ → ℕ → Option Pane
find_pane sessions sid wid pid =
    and_then (find_window sessions sid wid) (λ window. get pid window.panes)

unfoldable pub session_at : Server → ℕ → Outcome Session
session_at s sid = ok_or (get sid s.sessions) (session_missing sid)

unfoldable pub window_at : Server → ℕ → ℕ → Outcome Window
window_at s sid wid = ok_or (find_window s.sessions sid wid) (window_missing wid)

-- What a change through `get_mut` comes to, when it is there.
unfoldable pub put_session : ℕ → Session → Server → Server
put_session sid session s = record s { sessions = insert sid session s.sessions }

unfoldable pub put_window : ℕ → ℕ → Window → Server → Server
put_window sid wid window s = elim (get sid s.sessions) [
  | none ↦ s
  | some session ↦
      put_session sid (record session { windows = insert wid window session.windows }) s
]
