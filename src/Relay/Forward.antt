-- ===== src/Relay/Forward.antt =====
-- The life of a relay connection (`run_socket`, caterm-relay/src/main.rs): which channels a frame goes
-- to. The table may change between two frames, so that each frame comes behind changes by others.
pub mod Isolation
use caterm.Prelude.{
  ℕ, Bool, true, false, ◌&&◌, ◌||◌, Option, none, some, List, [], ◌∷◌, ◌++◌, map, any, ◌==◌,
  if◌then◌else◌, ◌≡◌, refl, ◌⊎◌, inl, inr, arith, Bool-cases, ==_iff,
}
use caterm.Text.{Text, text_eq}
use caterm.BTree.{BTree, insert, remove, values}
use caterm.Relay.Auth.{ConnectionRole, daemon, client, RelayAuth}
use caterm.Relay.Handshake.{Parsed, accepted, refused, parse_request, register, unregister}
use caterm.Relay.Routing.{SessionRoute, RoutingTable, no_route, client_txs, daemon_tx}
use caterm.Relay.Routing.Laws.{Change, daemon_in, daemon_out, client_in, client_out, apply_all}
use caterm.Relay.Routing.Refine.{follow, change_route, session_of, apply_all-follow}

-- What `reader.next()` gives. The messages are numbers.
pub data Frame : Type 0 where
  message : ℕ → Frame
  close failed : Frame

abbrev pub option_to_list : Option ℕ → List ℕ
option_to_list none = []
option_to_list (some tx) = tx ∷ []

unfoldable pub recipients : ConnectionRole → Text → RoutingTable → List ℕ
recipients daemon session_id table = client_txs session_id table
recipients client session_id table = option_to_list (daemon_tx session_id table)

-- What other connections do to the table before a frame comes, and the frame.
abbrev pub Turn : Type 0
Turn = List Change × Frame

-- The loop over the frames: the channels with the messages that they are sent, and the table.
unfoldable pub forward :
    ConnectionRole → Text → List Turn → RoutingTable → List (ℕ × ℕ) × RoutingTable
unfolding recipients
forward role session_id [] table = ([], table)
forward role session_id ((changes, message m) ∷ turns) table =
    let now = apply_all changes table in
    let (sent, left) = forward role session_id turns now in
    (map (λ tx. (tx, m)) (recipients role session_id now) ++ sent, left)
forward role session_id ((changes, close) ∷ turns) table = ([], apply_all changes table)
forward role session_id ((changes, failed) ∷ turns) table = ([], apply_all changes table)

-- `tx` is the channel of the connection, and `fresh` the id that it gets as a client.
unfoldable pub run_socket :
    ConnectionRole → Text → ℕ → ℕ → List Turn → RoutingTable → List (ℕ × ℕ) × RoutingTable
unfolding forward
run_socket role session_id fresh tx turns table =
    let (client_id, joined) = register role session_id fresh tx table in
    let (sent, left) = forward role session_id turns joined in
    (sent, unregister role session_id client_id left)

-- The answer of the handshake with its status and text, or what the connection does.
pub data Handled : Type 0 where
  turned_away : ℕ → Text → Handled
  served : List (ℕ × ℕ) → RoutingTable → Handled

abbrev pub run_context : Parsed → ℕ → ℕ → List Turn → RoutingTable → Handled
run_context (refused status reason) fresh tx turns table = turned_away status reason
run_context (accepted context) fresh tx turns table =
    let (sent, left) = run_socket context.role context.session_id fresh tx turns table in
    served sent left

unfoldable pub handle_connection :
    RelayAuth → Text → Option Text → ℕ → ℕ → List Turn → RoutingTable → Handled
unfolding run_socket
handle_connection auth path query fresh tx turns table =
    run_context (parse_request path query auth) fresh tx turns table
