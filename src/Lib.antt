-- ===== src/Lib.antt =====
-- A model of caterm, a terminal multiplexer: a daemon that keeps sessions of windows of panes, each
-- pane with a shell on a pseudo-terminal, and a relay that joins a daemon to remote clients.
--
-- The daemon (caterm/src/session_manager/server.rs) takes one message at a time: a command, a
-- client that attaches or detaches, or a turn of its timer. `Server` holds its state as the record
-- `SessionManagerServer`, and one method for each function of that file, under its name:
-- Server/State (the state and `snapshot`), Server/Resolve (`resolve_*`), Server/Create,
-- Server/Select, Server/Delete (the requests), Server/Runtime (`collect_runtime_events`),
-- Server/Filter and Server/Client (attached clients, `broadcast_events`), Server/Dispatch
-- (`handle_request` and the branches of the loop in `run`), Server/Restore (`restore_state`,
-- `shutdown_all`). What they work on is in Pane (pane.rs), Window (window.rs), Session
-- (session.rs), Snapshot, Request, Event, Command and ErrorCode (the files of these names there),
-- and Pty (caterm/src/pty.rs). Relay holds caterm-relay/src/auth.rs (Relay/Auth), routing.rs
-- (Relay/Routing) and the handshake of main.rs there (Relay/Handshake, Relay/Forward), and
-- caterm/src/relay.rs (Relay/Client, Relay/Connection). Daemon holds the files of a daemon
-- (daemon_state.rs) and how server.rs opens, cleans and closes them (Daemon/Run is `run` as a
-- whole, Daemon/Start the branch of `main` in front of it), Local the connections on its Unix
-- socket, Config caterm/src/config.rs, and Cli the command line (caterm/src/main.rs): the parser
-- (Cli/Parser, Cli/Subcommand, Cli/Parse), what is printed (Cli/View, Cli/Render) and the client
-- commands (Cli/Client).
--
-- A method is a function from the state to an outcome and a state (Outcome): the state keeps what
-- was written before an error, as `&mut self` does, and a panic is an outcome of its own. The
-- operating system is the record `Host` of its answers, and what the shells have sent is a `Poll`;
-- both are arguments; the files of a daemon are the record `Files`. Text is a list of code points
-- whose lengths count bytes of UTF-8 (Text); `BTreeMap` is a list of entries that insertion keeps
-- in ascending order (BTree). Ids wrap at 2^64, indices at 2^32, sizes at 2^16, as in a release
-- build. Every loop is structural recursion, except that the digits of a number are written with 20
-- of fuel, enough for 64 bits, and that the arguments of a command line are read with one more of
-- fuel than there are arguments, which Cli/Total proves to be enough.
--
-- Server/Valid states the invariant of the hierarchy on the generic `Roster` (ids are the keys and
-- below the counters, names differ within a container, the active entries exist) and the rules by
-- which a proof about a method follows its `do` block. Server/Directory follows the ids and the names
-- of the sessions: through the requests that change them (itself), through the others (Kept, by the
-- rules of Names and Rules), and through a run (Ids, Runs).
--
-- The libraries that take an address from the daemon to the relay, tungstenite and http, are the
-- parameter `UriLibrary` (Relay/Handshake/Address), with the splitting of plain addresses that RFC 3986
-- describes as its law.
--
-- Not modelled: the system behind sockets, files and processes, whose answers are arguments; JSON,
-- which serde_json makes and reads; the logs; the listener of the relay and its address; the Mac
-- application. A state file whose writing fails is taken to keep its old content in Daemon/Run and
-- Server/Lives (Daemon/Files has both ways), and a state that cannot be restored to leave no sessions:
-- either ends the daemon.
pub mod Prelude
pub mod Text
pub mod BTree
pub mod Roster
pub mod Outcome
pub mod Snapshot
pub mod Pty
pub mod Pane
pub mod Window
pub mod Session
pub mod ErrorCode
pub mod Request
pub mod Event
pub mod Command
pub mod Daemon
pub mod Local
pub mod Config
pub mod Cli
pub mod Server
pub mod Relay
pub mod Examples
