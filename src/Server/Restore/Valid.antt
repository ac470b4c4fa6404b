-- ===== src/Server/Restore/Valid.antt =====
-- A server that has been restored from the snapshot of a valid one is valid.
use mathlib.Core.Path.{subst}
use caterm.Prelude.{
  ℕ, ◌<◌, ◌≡◌, refl, sym, ap, ◌∙◌, some, [], ◌∷◌, All, map, arith, Bool-cases, inl, inr, ◌==◌,
}
use caterm.Text.{Text}
use caterm.Outcome.{ok, done}
use caterm.BTree.{BTree, get, values, Ascends}
use caterm.Roster.{Roster, Active}
use caterm.Pty.{Host}
use caterm.Pane
use caterm.Pane.{Pane}
use caterm.Window
use caterm.Window.{Window}
use caterm.Session
use caterm.Session.{Session}
use caterm.Server.State.{Server, snapshot}
use caterm.Server.Valid.{WindowOk, SessionOk, ServerOk}
use caterm.Server.Restore.{restore_state}
use caterm.Server.Restore.Counters.{
  PanesBelow, WindowsBelow, SessionsBelow, SessionsFit, restore_sessions-below,
}
use caterm.Server.Restore.RoundTrip.{
  map_values, reopen_pane, reopen_window, reopen_session, restore_state-snapshot,
}

module _ {V : Type 0} (f : V → V) where
  get-map_values :
      (k : ℕ) (m : BTree V) (v : V) → get k m ≡ some v → get k (map_values f m) ≡ some (f v)
  unfolding get
  get-map_values k [] v e = absurd (ground arith)
  get-map_values k ((j, w) ∷ m) v e = ground (arith, get-map_values k m v)

  get-map_values-inv :
      (k : ℕ) (m : BTree V) (u : V)
      → get k (map_values f m) ≡ some u
      → (v : V) × (get k m ≡ some v) × (u ≡ f v)
  unfolding get
  get-map_values-inv k [] u e = absurd (ground arith)
  get-map_values-inv k ((j, w) ∷ m) u e = elim (Bool-cases (j == k)) [
    | inl hit ↦ (w, ground arith, ground arith)
    | inr miss ↦
        let (v, found, same) = get-map_values-inv k m u (ground arith) in
        (v, ground (arith, found), same)
  ]

  Ascends-map_values : (low : ℕ) (m : BTree V) → Ascends low m → Ascends low (map_values f m)
  Ascends-map_values low [] h = tt
  Ascends-map_values low ((k, v) ∷ m) h = (h.0, Ascends-map_values _ m h.1)

  Active-map_values : (active : _) (m : BTree V) → Active active m → Active active (map_values f m)
  Active-map_values active m (k, v, chosen, found) = (k, f v, chosen, get-map_values k m v found)

  module _ (id : V → ℕ) (name : V → Text) (same_id : (v : V) → id (f v) ≡ id v)
      (same_name : (v : V) → name (f v) ≡ name v) where
    Roster-map_values :
        (Q R : V → Type 0) (next next' : ℕ) (m : BTree V)
        → Roster id name Q next m
        → ((k : ℕ) (v : V) → get k m ≡ some v → id v ≡ k → Q v → (k < next') × R (f v))
        → Roster id name R next' (map_values f m)
    Roster-map_values Q R next next' m r step = record {
      sorted = Ascends-map_values 0 m r.sorted;
      ids = λ k u e.
          let (v, found, same) = get-map_values-inv k m u e in
          let (own, below, q) = r.ids k v found in
          let (small, good) = step k v found own q in
          (ap id same ∙ same_id v ∙ own, small, subst R (sym same) good);
      names = λ i j a b ea eb same.
          let (v, found, e) = get-map_values-inv i m a ea in
          let (w, found', e') = get-map_values-inv j m b eb in
          r.names i j v w found found'
            (sym (ap name e ∙ same_name v) ∙ same ∙ ap name e' ∙ same_name w);
    }

All-get :
    {V S : Type 0} (P : S → Type 0) (g : V → S) (k : ℕ) (m : BTree V) (v : V)
    → All P (map g (values m))
    → get k m ≡ some v
    → P (g v)
unfolding get values
All-get P g k [] v h e = absurd (ground arith)
All-get P g k ((j, w) ∷ m) v h e = elim (Bool-cases (j == k)) [
  | inl hit ↦ subst (λ x. P (g x)) (ground arith) h.0
  | inr miss ↦ All-get P g k m v h.1 (ground arith)
]

module _ (process : ℕ → ℕ) where
  reopen_window-WindowOk :
      (np np' : ℕ) (window : Window)
      → WindowOk np window
      → PanesBelow np' (Window.snapshot window).panes
      → WindowOk np' (reopen_window process window)
  unfolding Window.snapshot Pane.snapshot
  reopen_window-WindowOk np np' window valid below = record {
    panes =
        Roster-map_values (reopen_pane process) _ _ (λ p. refl) (λ p. refl) _ _ np np' window.panes
          valid.panes
          (λ k p found own q.
            (subst (λ j. j < np') own (All-get _ Pane.snapshot k window.panes p below found), tt));
    active = Active-map_values (reopen_pane process) _ window.panes valid.active;
  }

  reopen_session-SessionOk :
      (nw nw' np np' : ℕ) (session : Session)
      → SessionOk nw np session
      → WindowsBelow nw' np' (Session.snapshot session).windows
      → SessionOk nw' np' (reopen_session process session)
  unfolding Session.snapshot
  reopen_session-SessionOk nw nw' np np' session valid below = record {
    windows =
        Roster-map_values (reopen_window process) _ _ (λ w. refl) (λ w. refl) _ _ nw nw'
          session.windows valid.windows
          (λ k w found own q.
            let here = All-get _ Window.snapshot k session.windows w below found in
            (
              subst (λ j. j < nw') own (unfold Window.snapshot in here.0),
              reopen_window-WindowOk np np' w q here.1,
            ));
    active = Active-map_values (reopen_window process) _ session.windows valid.active;
  }

  reopen-ServerOk :
      (s t : Server)
      → ServerOk s
      → t.sessions ≡ map_values (reopen_session process) s.sessions
      → SessionsBelow t.next_session_id t.next_window_id t.next_pane_id (snapshot s).sessions
      → ServerOk t
  unfolding snapshot
  reopen-ServerOk s t valid same below = record {
    sessions = subst (Roster _ _ _ t.next_session_id) (sym same) (
        Roster-map_values (reopen_session process) _ _ (λ x. refl) (λ x. refl) _ _ s.next_session_id
          t.next_session_id s.sessions valid.sessions
          (λ k x found own q.
            let here = All-get _ Session.snapshot k s.sessions x below found in
            (
              subst (λ j. j < t.next_session_id) own (unfold Session.snapshot in here.0),
              reopen_session-SessionOk s.next_window_id t.next_window_id s.next_pane_id
                  t.next_pane_id x q here.1,
            )));
  }

-- When every shell starts, what `restore_state` makes of the snapshot of a valid server whose ids fit
-- in 64 bits is valid again: its counters are above all ids that it has read.
pub restore_state-ServerOk :
    (host : Host) (process : ℕ → ℕ) (s fresh t : Server)
    → ((id : ℕ) (shell : Text) (cols rows : ℕ)
        → host.open_shell id shell cols rows ≡ done (process id))
    → ServerOk s
    → SessionsFit (snapshot s).sessions
    → restore_state host (some (snapshot s)) fresh ≡ ok t
    → ServerOk t
unfolding restore_state
restore_state-ServerOk host process s fresh t opens valid fit restored =
    let (t', restored', same) = restore_state-snapshot host process s fresh opens valid in
    let again : ok t ≡ ok t' = sym restored ∙ restored' in
    let e : t ≡ t' = cc in
    let (ls, lw, lp, below) = restore_sessions-below host (snapshot s).sessions _ t fit restored in
    reopen-ServerOk process s t valid (ap (λ (x : Server). x.sessions) e ∙ same) below
