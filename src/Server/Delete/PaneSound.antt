-- ===== src/Server/Delete/PaneSound.antt =====
-- The request that deletes a pane keeps the invariant, also when the shell cannot be ended.
use caterm.Prelude.{
  ℕ, ◌+◌, ◌<◌, ◌≡◌, refl, ◌≢◌, Option, some, arith, inl, inr, Bool-cases, ◌∙◌, length, ◌==◌,
}
use caterm.Text.{Text}
use caterm.Outcome.{ok, panic}
use caterm.BTree.{BTree, get, remove}
use caterm.BTree.Search.{first-get, other_entry}
use caterm.BTree.Laws.{length-remove, get-remove_ne}
use caterm.Pty.{Host, PtySession, terminate}
use caterm.Window.{Window, sync_layout}
use caterm.Window.Rebalance.{rebalanced, rebalance-eq}
use caterm.Roster.{Roster-remove, Active}
use caterm.Server.State.{Server, put_window, window_at}
use caterm.Server.Resolve.Targets.{
  resolve_session_id-calm, resolve_window_id-calm, resolve_pane_id-calm, window_at-calm,
  window_at-get,
}
use caterm.Server.Create.Sound.{not-true}
use caterm.Server.Select.Place.{Place-of}
use caterm.Server.Delete.{drop_pane, delete_pane, reselect}
use caterm.Server.Delete.Sound.{occupied, not_one, end_all-ServerOk}
use caterm.Server.Valid.{WindowOk, ServerOk, HasRoom}
use caterm.Server.Valid.Rules.{guard-calm, guard-ok, ok_or-calm}
use caterm.Server.Valid.Keeps.{
  Keeps, Keeps-reads, Keeps-lift, Keeps-lift_ok, Keeps-modify, Keeps-gets_last,
}
use caterm.Server.Valid.Windows.{
  rebalanced-get, rebalanced-Roster, Roster-KeyedById, occupied as some_left,
}
use caterm.Server.Valid.Changes.{put_window-ServerOk}

-- The active entry stays, or the first one left takes its place.
reselect-left :
    {A B : Type 0} (active : Option ℕ) (removed other : ℕ) (v : B) (m : BTree A) (m' : BTree B)
    → Active active m
    → get other m' ≡ some v
    → ((k : ℕ) (u : A) → k ≢ removed → get k m ≡ some u → (w : B) × (get k m' ≡ some w))
    → Active (reselect active removed m') m'
reselect-left active removed other v m m' (k, u, mark, found) there stays =
    let (j, w, head, inside) = first-get m' other v there in
    elim (Bool-cases (k == removed)) [
      | inl hit ↦ (j, w, ground (arith, mark), inside)
      | inr miss ↦
          let (w', kept) = stays k u (λ e. ground arith) found in
          (k, w', ground (arith, mark), kept)
    ]

abbrev without : ℕ → Window → Window
without pid window = record window { panes = remove pid window.panes }

-- The window without the pane.
abbrev dropped : ℕ → Window → Window
dropped pid window =
    let left = rebalanced (without pid window) in
    record (sync_layout left) { active_pane_id = reselect window.active_pane_id pid left.panes }

drop_pane-eq :
    (np pid : ℕ) (window : Window)
    → WindowOk np window
    → length window.panes ≢ 1
    → length window.panes < 65536
    → (drop_pane pid window ≡ ok (dropped pid window)) × WindowOk np (dropped pid window)
unfolding drop_pane sync_layout
drop_pane-eq np pid window valid more few =
    let (a, u, mark, found) = valid.active in
    let (other, v, there) =
      other_entry pid window.panes 0 valid.panes.sorted (occupied a u window.panes found) more in
    let left = without pid window in
    let roster = Roster-remove _ _ _ np pid window.panes valid.panes in
    let balanced =
      rebalance-eq left (Roster-KeyedById np left.panes roster) roster.sorted
        (some_left other v left.panes there) (omega (arith, length-remove pid window.panes)) in
    let (v', there') = rebalanced-get other left v roster.sorted there in
    (
      rw balanced refl,
      record {
        panes = rebalanced-Roster np left roster;
        active =
            reselect-left window.active_pane_id pid other v' window.panes (rebalanced left).panes
              valid.active there'
              (λ k w ne at.
                rebalanced-get k left w roster.sorted (get-remove_ne pid k window.panes ne ∙ at));
      },
    )

terminate-calm : (host : Host) (pty : PtySession) → terminate host pty ≢ panic
unfolding terminate
terminate-calm host pty e = ground arith

dropped-ServerOk :
    (s : Server) (sid wid pid : ℕ) (window : Window)
    → ServerOk s
    → HasRoom s
    → window_at s sid wid ≡ ok window
    → length window.panes ≢ 1
    → (drop_pane pid window ≡ ok (dropped pid window))
      × ServerOk (put_window sid wid (dropped pid window) s)
unfolding sync_layout
dropped-ServerOk s sid wid pid window valid room at more =
    let (session, found, there) = window_at-get s sid wid window at in
    let place = Place-of s sid wid session window valid found there in
    let few : length window.panes + 1 < 65536 = room.few sid wid window (rw found there) in
    let (done, window_ok) =
      drop_pane-eq s.next_pane_id pid window place.window_ok more (omega (arith, few)) in
    (
      done,
      put_window-ServerOk s sid wid session (dropped pid window) window valid found there refl refl
          window_ok,
    )

-- From a valid state with room, `delete_pane` ends in a valid state without a panic, also when it
-- fails to end the shell after it has taken the pane out.
pub delete_pane-Keeps :
    (host : Host) (session_target window_target target : Text) (s : Server)
    → ServerOk s
    → HasRoom s
    → Keeps (delete_pane host session_target window_target target s)
unfolding delete_pane
delete_pane-Keeps host session_target window_target target s valid room =
    Keeps-reads _ _ _ valid (resolve_session_id-calm s session_target) (λ sid _.
      Keeps-reads _ _ _ valid (resolve_window_id-calm s sid window_target) (λ wid _.
        Keeps-reads _ _ _ valid (resolve_pane_id-calm s sid wid target) (λ pid _.
          Keeps-reads _ _ _ valid (window_at-calm s sid wid) (λ window at.
            Keeps-lift _ _ _ valid (guard-calm _ _) (λ _ more.
              Keeps-lift _ _ _ valid (ok_or-calm _ _) (λ pane _.
                let (done, after) =
                  dropped-ServerOk s sid wid pid window valid room at
                    (not_one _ (not-true _ (guard-ok _ _ tt more))) in
                Keeps-lift_ok _ _ _ _ done (
                  Keeps-modify _ _ _ (
                    Keeps-lift _ _ _ after (terminate-calm host pane.pty) (λ _ _.
                      Keeps-modify _ _ _ (Keeps-gets_last _ _ (end_all-ServerOk _ _ after)))))))))))
