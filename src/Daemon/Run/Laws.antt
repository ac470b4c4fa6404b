-- ===== src/Daemon/Run/Laws.antt =====
-- A daemon that has ended in order leaves its place to the next one.
use caterm.Prelude.{ℕ, false, Option, some, List, ◌≡◌, refl, arith}
use caterm.Text.{Text}
use caterm.Outcome.{Outcome, ok, err, panic, ◌>>=◌}
use caterm.Snapshot.{ServerSnapshot}
use caterm.Server.State.{Server}
use caterm.Server.Dispatch
use caterm.Daemon.Files.{
  missing, stored, Files, Disk, read_state, remove_metadata, write_metadata, read_metadata,
}
use caterm.Daemon.Lifecycle.{open_daemon, close_daemon, cleanup_stale_socket, remove_socket}
use caterm.Daemon.Laws.{opened}
use caterm.Daemon.Run.{Message, System, Looped, end, enter, start, open_and_start, run}

-- There is neither a socket nor metadata.
abbrev pub IsFree : Files → Type 0
IsFree f = (f.socket ≡ false) × (f.metadata ≡ missing)

close_daemon-IsFree :
    (disk : Disk) (path : Text) (f : Files)
    → disk.remove_fails ≡ false
    → disk.remove_socket_fails ≡ false
    → IsFree (close_daemon disk path f)
unfolding close_daemon remove_metadata remove_socket ◌>>=◌
close_daemon-IsFree disk path f removes removes' = ground arith

-- What the system has let one daemon do, it lets another one do, where the files are free.
open_daemon-free :
    (disk : Disk) (path : Text) (pid second : ℕ) (f f' g : Files)
    → open_daemon disk path pid f ≡ (ok tt, f')
    → IsFree g
    → open_daemon disk path second g ≡ (ok tt, opened path second g)
unfolding open_daemon write_metadata cleanup_stale_socket read_metadata remove_metadata
    remove_socket ◌>>=◌
open_daemon-free disk path pid second f f' g done free = ground arith

read_state-opened :
    (disk : Disk) (path : Text) (pid second : ℕ) (f f' g : Files) (saved : ServerSnapshot)
    → open_daemon disk path pid f ≡ (ok tt, f')
    → g.state ≡ stored saved
    → (read_state disk path (opened path second g)).0 ≡ ok (some saved)
unfolding open_daemon cleanup_stale_socket read_metadata read_state ◌>>=◌
read_state-opened disk path pid second f f' g saved done kept = ground arith

module _ (system : System) (path : Text) (removes : system.disk.remove_fails ≡ false)
    (removes' : system.disk.remove_socket_fails ≡ false) (messages : List Message)
    (s : Server) where
  end-IsFree :
      (o : Looped) (f : Files)
      → (end system path o f).result ≡ ok tt
      → IsFree (end system path o f).files
  end-IsFree (ok u, d) f e = close_daemon-IsFree system.disk path _ removes removes'
  end-IsFree (err message, d) f e = absurd (cc)
  end-IsFree (panic, d) f e = absurd (cc)

  enter-IsFree :
      (o : Outcome Dispatch.Daemon) (f : Files)
      → (enter system path messages s o f).result ≡ ok tt
      → IsFree (enter system path messages s o f).files
  enter-IsFree (ok d) f e = end-IsFree _ f e
  enter-IsFree (err message) f e = absurd (cc)
  enter-IsFree panic f e = absurd (cc)

  start-IsFree :
      (o : Outcome (Option ServerSnapshot)) (f : Files)
      → (start system path messages s o f).result ≡ ok tt
      → IsFree (start system path messages s o f).files
  start-IsFree (ok file) f e = enter-IsFree _ f e
  start-IsFree (err message) f e = absurd (cc)
  start-IsFree panic f e = absurd (cc)

  open_and_start-IsFree :
      (o : Outcome (Unit {0}) × Files)
      → (open_and_start system path messages s o).result ≡ ok tt
      → (o ≡ (ok tt, o.1)) × IsFree (open_and_start system path messages s o).files
  open_and_start-IsFree (ok u, f) e = (refl, start-IsFree _ f e)
  open_and_start-IsFree (err message, f) e = absurd (cc)
  open_and_start-IsFree (panic, f) e = absurd (cc)

-- A run that has ended in order, where the system refuses no removal, leaves neither a socket nor
-- metadata, so that the next daemon on the same socket opens its files, whatever process it is, and
-- reads the state that the run has left.
pub run-IsFree :
    (system : System) (path : Text) (messages : List Message) (s : Server) (f : Files) (second : ℕ)
    (saved : ServerSnapshot)
    → system.disk.remove_fails ≡ false
    → system.disk.remove_socket_fails ≡ false
    → (run system path messages s f).result ≡ ok tt
    → (run system path messages s f).files.state ≡ stored saved
    → let left = (run system path messages s f).files in
      IsFree left
      × (open_daemon system.disk path second left ≡ (ok tt, opened path second left))
      × ((read_state system.disk path (opened path second left)).0 ≡ ok (some saved))
unfolding run
run-IsFree system path messages s f second saved removes removes' ended kept =
    let first = open_daemon system.disk path system.pid f in
    let (opens, free) = open_and_start-IsFree system path removes removes' messages s first ended in
    (
      free,
      open_daemon-free system.disk path system.pid second f first.1 _ opens free,
      read_state-opened system.disk path system.pid second f first.1
          (run system path messages s f).files saved opens kept,
    )
