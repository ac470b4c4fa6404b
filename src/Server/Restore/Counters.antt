-- ===== src/Server/Restore/Counters.antt =====
-- The counters that `restore_state` leaves behind are above all ids that it has read.
use caterm.Prelude.{ℕ, ◌+◌, ◌^◌, ◌≤◌, ◌<◌, ◌≡◌, List, [], ◌∷◌, All, max, arith}
use caterm.Outcome.{ok}
use caterm.Outcome.Laws.{and_then-eq-ok}
use caterm.BTree.{BTree, insert}
use caterm.Snapshot.{PaneSnapshot, WindowSnapshot, SessionSnapshot}
use caterm.Pty.{Host, spawn}
use caterm.Pane.{Pane}
use caterm.Window.{Window}
use caterm.Server.State.{Server, ShellConfig, next_id}
use caterm.Server.Restore.{
  restore_pane, restore_panes, restore_windows, restored_window, restore_sessions,
}

-- The id and its successor fit in 64 bits.
abbrev pub Fits : ℕ → Type 0
Fits id = id + 1 < 2 ^ 64

abbrev pub PanesFit : List PaneSnapshot → Type 0
PanesFit panes = All (λ (p : PaneSnapshot). Fits p.id) panes

abbrev pub WindowsFit : List WindowSnapshot → Type 0
WindowsFit windows = All (λ (w : WindowSnapshot). Fits w.id × PanesFit w.panes) windows

abbrev pub SessionsFit : List SessionSnapshot → Type 0
SessionsFit sessions = All (λ (x : SessionSnapshot). Fits x.id × WindowsFit x.windows) sessions

abbrev pub PanesBelow : ℕ → List PaneSnapshot → Type 0
PanesBelow n panes = All (λ (p : PaneSnapshot). p.id < n) panes

abbrev pub WindowsBelow : ℕ → ℕ → List WindowSnapshot → Type 0
WindowsBelow nw np windows =
    All (λ (w : WindowSnapshot). (w.id < nw) × PanesBelow np w.panes) windows

abbrev pub SessionsBelow : ℕ → ℕ → ℕ → List SessionSnapshot → Type 0
SessionsBelow ns nw np sessions =
    All (λ (x : SessionSnapshot). (x.id < ns) × WindowsBelow nw np x.windows) sessions

PanesBelow-weaken :
    (n n' : ℕ) (panes : List PaneSnapshot) → n ≤ n' → PanesBelow n panes → PanesBelow n' panes
PanesBelow-weaken n n' [] le h = tt
PanesBelow-weaken n n' (p ∷ panes) le h = (omega (arith, h.0), PanesBelow-weaken n n' panes le h.1)

WindowsBelow-weaken :
    (nw nw' np np' : ℕ) (windows : List WindowSnapshot)
    → nw ≤ nw'
    → np ≤ np'
    → WindowsBelow nw np windows
    → WindowsBelow nw' np' windows
WindowsBelow-weaken nw nw' np np' [] le le' h = tt
WindowsBelow-weaken nw nw' np np' (w ∷ windows) le le' h = (
  (omega (arith, h.0.0), PanesBelow-weaken np np' w.panes le' h.0.1),
  WindowsBelow-weaken nw nw' np np' windows le le' h.1,
)

restore_pane-id :
    (host : Host) (config : ShellConfig) (saved : PaneSnapshot) (pane : Pane)
    → restore_pane host config saved ≡ ok pane
    → pane.id ≡ saved.id
unfolding restore_pane spawn
restore_pane-id host config saved pane e = ground arith

restore_panes-below :
    (host : Host) (config : ShellConfig) (saved : List PaneSnapshot) (acc m : BTree Pane) (n n' : ℕ)
    → PanesFit saved
    → restore_panes host config saved acc n ≡ ok (m, n')
    → (n ≤ n') × PanesBelow n' saved
unfolding restore_panes
restore_panes-below host config [] acc m n n' fit e = (ground arith, tt)
restore_panes-below host config (p ∷ saved) acc m n n' fit e =
    let (pane, opened, later) = and_then-eq-ok (restore_pane host config p) _ e in
    let own = restore_pane-id host config p pane opened in
    let (le, below) =
      restore_panes-below host config saved (insert pane.id pane acc) m (max n (next_id pane.id)) n'
        fit.1 later in
    (omega arith, (omega (arith, fit.0), below))

restore_windows-below :
    (host : Host) (config : ShellConfig) (saved : List WindowSnapshot) (acc m : BTree Window)
    (nw nw' np np' : ℕ)
    → WindowsFit saved
    → restore_windows host config saved acc nw np ≡ ok (m, nw', np')
    → (nw ≤ nw') × (np ≤ np') × WindowsBelow nw' np' saved
unfolding restore_windows
restore_windows-below host config [] acc m nw nw' np np' fit e = (ground arith, ground arith, tt)
restore_windows-below host config (w ∷ saved) acc m nw nw' np np' fit e =
    let (built, opened, later) = and_then-eq-ok (restore_panes host config w.panes [] np) _ e in
    let (le, below) =
      restore_panes-below host config w.panes [] built.0 np built.1 fit.0.1 opened in
    let (lew, lep, rest) =
      restore_windows-below host config saved (insert w.id (restored_window w built.0) acc) m
        (max nw (next_id w.id)) nw' built.1 np' fit.1 later in
    (
      omega arith,
      omega arith,
      ((omega (arith, fit.0.0), PanesBelow-weaken built.1 np' w.panes lep below), rest),
    )

pub restore_sessions-below :
    (host : Host) (saved : List SessionSnapshot) (s t : Server)
    → SessionsFit saved
    → restore_sessions host saved s ≡ ok t
    → (s.next_session_id ≤ t.next_session_id)
      × (s.next_window_id ≤ t.next_window_id)
      × (s.next_pane_id ≤ t.next_pane_id)
      × SessionsBelow t.next_session_id t.next_window_id t.next_pane_id saved
unfolding restore_sessions
restore_sessions-below host [] s t fit e = (ground arith, ground arith, ground arith, tt)
restore_sessions-below host (x ∷ saved) s t fit e =
    let (built, opened, later) =
      and_then-eq-ok (restore_windows host s.config x.windows [] s.next_window_id s.next_pane_id) _
        e in
    let (lew, lep, below) =
      restore_windows-below host s.config x.windows [] built.0 s.next_window_id built.1
        s.next_pane_id built.2 fit.0.1 opened in
    let (ls, lw, lp, rest) = restore_sessions-below host saved _ t fit.1 later in
    (
      omega arith,
      omega arith,
      omega arith,
      (
        (omega (arith, fit.0.0), WindowsBelow-weaken built.1 _ built.2 _ x.windows lw lp below),
        rest,
      ),
    )
