-- ===== src/Examples/Samples.antt =====
-- A system that answers every call, and a server with one session, one window and two panes.
use caterm.Prelude.{ℕ, ◌+◌, ◌<◌, ◌≡◌, refl, none, some, [], ◌∷◌, arith, length}
use caterm.Text.{Text, codes, text_eq}
use caterm.Outcome.{done}
use caterm.BTree.{BTree, get, insert, values}
use caterm.Pty.{Host, Poll, PtySession}
use caterm.Pane.{Pane}
use caterm.Window.{Window, tiled}
use caterm.Session.{Session}
use caterm.Roster.{Roster-empty, Roster-insert}
use caterm.Server.State.{Server, ShellConfig, new_server, find_window}
use caterm.Server.Valid.{WindowOk, SessionOk, ServerOk, HasRoom}

abbrev pub quiet : Poll
quiet = record { received = λ process. []; exit_status = λ process. done none }

abbrev pub host : Host
host = record {
  open_shell = λ id shell cols rows. done id;
  write = λ process bytes. done tt;
  kill = λ process. done tt;
  wait = λ process. done 0;
  poll = λ n. quiet;
  save = done tt;
}

abbrev pub config : ShellConfig
config = record { shell = codes "/bin/sh"; cols = 80; rows = 24 }

abbrev pub pty_of : ℕ → PtySession
pty_of process = record { reader = none; writer = process; child = some process; written = [] }

abbrev pub sample_pane : ℕ → ℕ → Text → Pane
sample_pane id index name = record {
  id = id;
  index = index;
  name = name;
  size = 50;
  shell = codes "/bin/sh";
  pty = pty_of id;
  output_history = codes "$ ";
  pending_output = [];
  dropped_output_bytes = 0;
  exit_code = none;
}

abbrev pub left_pane : Pane
left_pane = sample_pane 1 0 (codes "left")

abbrev pub right_pane : Pane
right_pane = sample_pane 2 1 (codes "right")

abbrev pub two_panes : BTree Pane
two_panes = (1, left_pane) ∷ (2, right_pane) ∷ []

abbrev pub main_window : Window
main_window = record {
  id = 1;
  index = 0;
  name = codes "main";
  layout = tiled;
  panes = two_panes;
  active_pane_id = some 2;
}

abbrev pub work : Session
work = record {
  id = 1;
  name = codes "work";
  windows = (1, main_window) ∷ [];
  active_window_id = some 1;
}

abbrev pub server : Server
server = record {
  config = config;
  sessions = (1, work) ∷ [];
  next_session_id = 2;
  next_window_id = 2;
  next_pane_id = 3;
  next_subscriber_id = 1;
  subscribers = [];
  ended = [];
}

main_window-WindowOk : WindowOk 3 main_window
unfolding insert get values text_eq
main_window-WindowOk = record {
  panes =
      Roster-insert _ _ _ 2 3 2 right_pane _
        (Roster-insert _ _ _ 1 2 1 left_pane [] (Roster-empty _ _ _ 1) (omega arith) refl
          (omega arith) tt refl)
        (omega arith) refl (omega arith) tt refl;
  active = (2, right_pane, refl, refl);
}

work-SessionOk : SessionOk 2 3 work
unfolding insert get values
work-SessionOk = record {
  windows =
      Roster-insert _ _ _ 1 2 1 main_window [] (Roster-empty _ _ _ 1) (omega arith) refl
        (omega arith) main_window-WindowOk refl;
  active = (1, main_window, refl, refl);
}

pub server-ServerOk : ServerOk server
unfolding insert values
server-ServerOk = record {
  sessions =
      Roster-insert _ _ _ 1 2 1 work [] (Roster-empty _ _ _ 1) (omega arith) refl (omega arith)
        work-SessionOk refl;
}

server-few :
    (sid wid : ℕ) (window : Window)
    → find_window server.sessions sid wid ≡ some window
    → length window.panes + 1 < 65536
unfolding get
server-few sid wid window e = ground arith

pub server-HasRoom : HasRoom server
server-HasRoom = record {
  sessions = omega arith;
  windows = omega arith;
  panes = omega arith;
  few = server-few;
}

new_server-few :
    (sid wid : ℕ) (window : Window)
    → find_window (new_server config).sessions sid wid ≡ some window
    → length window.panes + 1 < 65536
unfolding get new_server
new_server-few sid wid window e = absurd (ground arith)

pub new_server-HasRoom : HasRoom (new_server config)
unfolding new_server
new_server-HasRoom = record {
  sessions = omega arith;
  windows = omega arith;
  panes = omega arith;
  few = new_server-few;
}
