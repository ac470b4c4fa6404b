-- ===== src/Server/Lives.antt =====
-- The life of a daemon over its restarts: what one run has saved the next one begins with.
use mathlib.Core.Path.{subst}
use native.Mathlib.Omega.{arith}
use caterm.Prelude.{ℕ, ◌≡◌, refl, ap, sym, ◌∙◌, Option, none, some}
use caterm.Text.{Text}
use caterm.Outcome.{Outcome, ok, err, panic, Answer, done, failed, from_answer, ◌>>=◌}
use caterm.Outcome.Laws.{and_then-eq-ok}
use caterm.Pty.{Host, Poll}
use caterm.Snapshot.{ServerSnapshot}
use caterm.Server.State.{Server, ShellConfig, CommandOutcome, new_server, snapshot}
use caterm.Server.Valid.{ServerOk, HasRoom}
use caterm.Server.Dispatch.{
  Daemon, run_command, run_attach, run_detach, run_tick, conclude, handle_request,
}
use caterm.Server.Dispatch.Invariant.{handle_request-ServerOk}
use caterm.Server.Dispatch.Run.{
  Step, commanded, attached, detached, ticked, Step-ServerOk, new_daemon, new_server-ServerOk,
}
use caterm.Server.Restore.{start_server, restore_state}
use caterm.Server.Restore.Counters.{SessionsFit}
use caterm.Server.Restore.Valid.{restore_state-ServerOk}

-- The file holds the snapshot of a valid server, if there is one.
Kept : Option ServerSnapshot → Type 0
Kept none = Unit
Kept (some file) = (s : Server) × ServerOk s × (file ≡ snapshot s)

-- The ids in the file fit in 64 bits, with their successors.
abbrev pub FileFits : Option ServerSnapshot → Type 0
FileFits none = Unit
FileFits (some file) = SessionsFit file.sessions

-- A first start with no state file, turns of the loop, and starts on the file that is there, however
-- the daemon has ended before.
pub data Life (config : ShellConfig) : Daemon → Type 0 where
  born : Life config (new_daemon config)
  turn : {d d' : Daemon} → Life config d → HasRoom d.server → Step d d' → Life config d'
  restarted :
      {d d' : Daemon} (host : Host) (process : ℕ → ℕ)
      → Life config d
      → ((id : ℕ) (shell : Text) (cols rows : ℕ)
          → host.open_shell id shell cols rows ≡ done (process id))
      → FileFits d.state_file
      → start_server host d.state_file (new_server config) ≡ ok d'
      → Life config d'

saved-Kept :
    (host : Host) (outcome : CommandOutcome) (s : Server) (file : Option ServerSnapshot)
    (saved : Answer (Unit {0}))
    → host.save ≡ saved
    → ServerOk s
    → Kept file
    → Kept (conclude host (ok outcome) s file).1.state_file
unfolding Kept
saved-Kept host outcome s file (done u) e valid kept = rw e (s, valid, refl)
saved-Kept host outcome s file (failed message) e valid kept = rw e kept

conclude-Kept :
    (host : Host) (r : Outcome CommandOutcome) (s : Server) (file : Option ServerSnapshot)
    → ServerOk s
    → Kept file
    → Kept (conclude host r s file).1.state_file
unfolding Kept
conclude-Kept host (err message) s file valid kept = kept
conclude-Kept host panic s file valid kept = kept
conclude-Kept host (ok outcome) s file valid kept =
    saved-Kept host outcome s file host.save refl valid kept

run_tick-file : (poll : Poll) (d : Daemon) → (run_tick poll d).1.state_file ≡ d.state_file
unfolding run_tick ◌>>=◌
run_tick-file poll d = ground arith

Step-Kept :
    (d d' : Daemon)
    → HasRoom d.server
    → ServerOk d.server
    → Kept d.state_file
    → Step d d'
    → Kept d'.state_file
unfolding run_command run_attach run_detach
Step-Kept d d' room valid kept (commanded host request) =
    conclude-Kept host (handle_request host request d.server).0
      (handle_request host request d.server).1 d.state_file
      (handle_request-ServerOk host request d.server valid room) kept
Step-Kept d d' room valid kept (attached request) = kept
Step-Kept d d' room valid kept (detached subscriber_id) = kept
Step-Kept d d' room valid kept (ticked poll) = subst Kept (sym (run_tick-file poll d)) kept

fresh_lem : (host : Host) (s t : Server) → restore_state host none s ≡ ok t → s ≡ t
unfolding restore_state
fresh_lem host s t restored = cc

restored-ServerOk :
    (host : Host) (process : ℕ → ℕ) (file : Option ServerSnapshot) (config : ShellConfig)
    (t : Server)
    → ((id : ℕ) (shell : Text) (cols rows : ℕ)
        → host.open_shell id shell cols rows ≡ done (process id))
    → Kept file
    → FileFits file
    → restore_state host file (new_server config) ≡ ok t
    → ServerOk t
unfolding Kept
restored-ServerOk host process none config t opens kept fit restored =
    subst ServerOk (fresh_lem host (new_server config) t restored) (new_server-ServerOk config)
restored-ServerOk host process (some file) config t opens (s, valid, e) fit restored =
    restore_state-ServerOk host process s (new_server config) t opens valid
      (subst (λ (f : ServerSnapshot). SessionsFit f.sessions) e fit)
      (ap (λ f. restore_state host (some f) (new_server config)) (sym e) ∙ restored)

start_server-ServerOk :
    (host : Host) (process : ℕ → ℕ) (file : Option ServerSnapshot) (config : ShellConfig)
    (d : Daemon)
    → ((id : ℕ) (shell : Text) (cols rows : ℕ)
        → host.open_shell id shell cols rows ≡ done (process id))
    → Kept file
    → FileFits file
    → start_server host file (new_server config) ≡ ok d
    → ServerOk d.server × Kept d.state_file
unfolding start_server Kept
start_server-ServerOk host process file config d opens kept fit started =
    let (t, restored, saved) =
      and_then-eq-ok (restore_state host file (new_server config)) _ started in
    let (u, written, same) = and_then-eq-ok (from_answer host.save) _ saved in
    let valid = restored-ServerOk host process file config t opens kept fit restored in
    let e : d ≡ record { server = t; state_file = some (snapshot t) } = cc in
    (
      subst (λ (x : Daemon). ServerOk x.server) (sym e) valid,
      subst (λ (x : Daemon). Kept x.state_file) (sym e) (t, valid, refl),
    )

Life-DaemonOk :
    (config : ShellConfig) (d : Daemon) → Life config d → ServerOk d.server × Kept d.state_file
Life-DaemonOk config d born = (new_server-ServerOk config, unfold Kept in tt)
Life-DaemonOk config d (turn life room step) =
    let (valid, kept) = Life-DaemonOk config _ life in
    (Step-ServerOk _ d room valid step, Step-Kept _ d room valid kept step)
Life-DaemonOk config d (restarted host process life opens fit started) =
    let (valid, kept) = Life-DaemonOk config _ life in
    start_server-ServerOk host process _ config d opens kept fit started

-- Every state that a daemon reaches is valid, over any number of starts, each on what the one before
-- has saved, and over commands, clients that come and go and turns of the timer in any order and with
-- any answers of the system, as long as each turn begins with room in the counters and each restart
-- opens its shells and finds ids that fit in 64 bits.
pub Life-ServerOk : (config : ShellConfig) (d : Daemon) → Life config d → ServerOk d.server
Life-ServerOk config d life = (Life-DaemonOk config d life).0
