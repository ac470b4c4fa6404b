-- ===== src/Daemon/Files.antt =====
-- The files and the calls on them. What the system refuses is the record `Disk`.
use caterm.Prelude.{ℕ, Bool, true, false, ◌&&◌, not, Option, none, some, ◌++◌, if◌then◌else◌}
use caterm.Text.{Text, codes}
use caterm.Outcome.{Outcome, ok, err, Method, guard, lift, reads, gets, modify, ◌>>=◌, ◌>>◌}
use caterm.Snapshot.{ServerSnapshot}
use caterm.Daemon.Paths.{metadata_path, state_path}

pub record DaemonMetadata : Type 0 where
  pub pid : ℕ
  pub socket_path : Text

-- A file: it is not there, it does not decode, or it holds a value.
pub data File (A : Type 0) : Type 0 where
  missing garbled : File A
  stored : A → File A

-- What lies at the socket path and beside it.
pub record Files : Type 0 where
  pub socket : Bool
  pub metadata : File DaemonMetadata
  pub state : File ServerSnapshot

-- The calls that the system refuses, for another reason than a missing file, whether a failing write
-- has emptied the file before, and the processes that `kill(pid, 0)` finds.
pub record Disk : Type 0 where
  pub read_fails : Bool
  pub write_fails : Bool
  pub write_tears : Bool
  pub remove_fails : Bool
  pub remove_socket_fails : Bool
  pub create_fails : Bool
  pub bind_fails : Bool
  pub pid_is_alive : ℕ → Bool

-- There is a file to remove.
abbrev pub is_there : {A : Type 0} → File A → Bool
is_there missing = false
is_there _ = true

abbrev pub Call : Type 0 → Type 0
Call = Method Files

-- The decoding of what was read.
abbrev pub decode : {A : Type 0} → Text → File A → Outcome (Option A)
decode path missing = ok none
decode path garbled = err (codes "failed to decode " ++ path)
decode path (stored a) = ok (some a)

abbrev pub read_file : {A : Type 0} → Disk → Text → File A → Outcome (Option A)
read_file disk path file =
    if disk.read_fails then err (codes "failed to read " ++ path) else decode path file

-- What `tokio::fs::write` leaves: a write that fails may have cut off the old content.
abbrev pub left_by : {A : Type 0} → Disk → A → File A → File A
left_by disk new old =
    if not disk.write_fails then stored new else if disk.write_tears then garbled else old

module _ (disk : Disk) (socket_path : Text) where
  unfoldable pub read_metadata : Call (Option DaemonMetadata)
  read_metadata = reads (λ f. read_file disk (metadata_path socket_path) f.metadata)

  unfoldable pub read_state : Call (Option ServerSnapshot)
  read_state = reads (λ f. read_file disk (state_path socket_path) f.state)

  -- `pid` is the process id of the daemon.
  unfoldable pub write_metadata : ℕ → Call (Unit {0})
  write_metadata pid = do
    modify (λ f. record f {
      metadata = left_by disk (record { pid = pid; socket_path = socket_path }) f.metadata;
    })
    lift (guard (not disk.write_fails) (codes "failed to write " ++ metadata_path socket_path))

  unfoldable pub write_state : ServerSnapshot → Call (Unit {0})
  write_state snapshot = do
    modify (λ f. record f { state = left_by disk snapshot f.state })
    lift (guard (not disk.write_fails) (codes "failed to write " ++ state_path socket_path))

  unfoldable pub remove_metadata : Call (Unit {0})
  remove_metadata = do
    there ← gets (λ f. is_there f.metadata)
    lift (
        guard (not (there && disk.remove_fails))
          (codes "failed to remove " ++ metadata_path socket_path))
    modify (λ f. record f { metadata = missing })
