-- ===== src/Server/Create/PaneSound.antt =====
-- The requests that create a pane keep the invariant.
use mathlib.Core.Path.{subst}
use caterm.Prelude.{
  ℕ, ◌+◌, ◌≤◌, ◌<◌, ◌≡◌, refl, false, Option, none, some, arith, any, sym, ◌∙◌, length,
}
use caterm.Text.{Text}
use caterm.Outcome.{ok}
use caterm.BTree.{get, insert, values}
use caterm.BTree.Laws.{get-insert_self, length-insert}
use caterm.Pty.{Host}
use caterm.Pane.{Pane}
use caterm.Window.{Window, WindowLayout, set_split_layout, sync_layout}
use caterm.Window.Rebalance.{rebalanced}
use caterm.Roster.{Roster-insert}
use caterm.Server.State.{Server, next_id, put_window, window_at, find_pane}
use caterm.Server.Resolve.Targets.{
  resolve_session_id-calm, resolve_window_id-calm, window_at-calm, window_at-get,
}
use caterm.Server.Create.{add_pane, relayout, create_pane_with_layout, report_pane, named_pane}
use caterm.Server.Create.Sound.{not-true, spent, Sound-spawn}
use caterm.Server.Select.Place.{Untouched-refl, Place-of}
use caterm.Server.Valid.{WindowOk, ServerOk, HasRoom, ServerOk-weaken}
use caterm.Server.Valid.Rules.{
  Sound, Sound-reads, Sound-lift, Sound-gets, Sound-modify, Sound-reads_last, Untouched, Returns,
  guard-calm, guard-ok, Returns-expect, Sound-lift_ok,
}
use caterm.Server.Valid.Windows.{rebalance-WindowOk, rebalanced-get}
use caterm.Server.Valid.Changes.{put_window-ServerOk, find_pane-put_window}

-- What a window keeps when its panes change.
record Grown (np : ℕ) (pid : ℕ) (window window' : Window) : Type 0 where
  valid : WindowOk np window'
  same_id : window'.id ≡ window.id
  same_name : window'.name ≡ window.name
  there : (pane : Pane) × (get pid window'.panes ≡ some pane)

relayout-Grown :
    (np pid : ℕ) (layout : Option WindowLayout) (window : Window) (pane : Pane)
    → WindowOk np window
    → get pid window.panes ≡ some pane
    → Grown np pid window (relayout layout window)
unfolding sync_layout set_split_layout
relayout-Grown np pid none window pane valid found = record {
  valid = record { panes = valid.panes; active = valid.active };
  same_id = refl;
  same_name = refl;
  there = (pane, found);
}
relayout-Grown np pid (some layout) window pane valid found = record {
  valid = record { panes = valid.panes; active = valid.active };
  same_id = refl;
  same_name = refl;
  there = (pane, found);
}

abbrev with_pane : Pane → Window → Window
with_pane pane window = record window {
  active_pane_id = some pane.id;
  panes = insert pane.id pane window.panes;
}

with_pane-WindowOk :
    (np np' : ℕ) (pane : Pane) (window : Window)
    → WindowOk np window
    → np ≤ pane.id
    → pane.id < np'
    → any (named_pane pane.name) (values window.panes) ≡ false
    → WindowOk np' (with_pane pane window)
with_pane-WindowOk np np' pane window valid fresh below free = record {
  panes = Roster-insert _ _ _ np np' pane.id pane window.panes valid.panes fresh refl below tt free;
  active = (pane.id, pane, refl, get-insert_self pane.id pane window.panes);
}

add_pane-eq :
    (np np' : ℕ) (layout : Option WindowLayout) (pane : Pane) (window : Window)
    → WindowOk np window
    → np ≤ pane.id
    → pane.id < np'
    → any (named_pane pane.name) (values window.panes) ≡ false
    → length window.panes + 1 < 65536
    → (window' : Window) × (add_pane layout pane window ≡ ok window')
      × Grown np' pane.id window window'
unfolding add_pane
add_pane-eq np np' layout pane window valid fresh below free few =
    let larger = with_pane pane window in
    let larger_ok = with_pane-WindowOk np np' pane window valid fresh below free in
    let (balanced, balanced_ok) =
      rebalance-WindowOk np' larger larger_ok
        (omega (arith, length-insert pane.id pane window.panes)) in
    let (pane', found) =
      rebalanced-get pane.id larger pane larger_ok.panes.sorted
        (get-insert_self pane.id pane window.panes) in
    let grown = relayout-Grown np' pane.id layout (rebalanced larger) pane' balanced_ok found in
    (
      relayout layout (rebalanced larger),
      rw balanced refl,
      record {
        valid = grown.valid;
        same_id = grown.same_id;
        same_name = grown.same_name;
        there = grown.there;
      },
    )

Untouched-spent : (s : Server) → ServerOk s → HasRoom s → Untouched s (spent s)
Untouched-spent s valid room = record {
  valid = ServerOk-weaken s (spent s) refl (omega arith) (omega arith) (omega arith) valid;
  same = refl;
}

report_pane-Returns :
    (layout : Option WindowLayout) (sid wid pid : ℕ) (s : Server) (pane : Pane)
    → find_pane s.sessions sid wid pid ≡ some pane
    → Returns (report_pane layout sid wid pid s)
unfolding report_pane
report_pane-Returns layout sid wid pid s pane found = Returns-expect _ _ pane found tt

-- The end of `create_pane_with_layout`, after the shell has started.
record Finished (s : Server) (sid wid : ℕ) (layout : Option WindowLayout) (pane : Pane)
    (current : Window) : Type 0 where
  window' : Window
  added : add_pane layout pane current ≡ ok window'
  valid : ServerOk (put_window sid wid window' (spent s))
  reported :
      Returns (report_pane layout sid wid s.next_pane_id (put_window sid wid window' (spent s)))

window_at-spent : (s : Server) (sid wid : ℕ) → window_at (spent s) sid wid ≡ window_at s sid wid
unfolding window_at
window_at-spent s sid wid = refl

finish :
    (s : Server) (sid wid : ℕ) (layout : Option WindowLayout) (pane : Pane)
    (window current : Window)
    → ServerOk s
    → HasRoom s
    → window_at s sid wid ≡ ok window
    → window_at (spent s) sid wid ≡ ok current
    → pane.id ≡ s.next_pane_id
    → any (named_pane pane.name) (values window.panes) ≡ false
    → Finished s sid wid layout pane current
finish s sid wid layout pane window current valid room at at' own free =
    let same : window ≡ current = ground (arith, window_at-spent s sid wid) in
    let (session, found, there) = window_at-get (spent s) sid wid current at' in
    let place = Place-of s sid wid session current valid found there in
    let next = next_id s.next_pane_id in
    let few : length current.panes + 1 < 65536 = room.few sid wid current (rw found there) in
    let (window', added, grown) =
      add_pane-eq s.next_pane_id next layout pane current place.window_ok (omega (arith, own))
        (omega (arith, own, room.panes))
        (subst (λ (w : Window). any (named_pane pane.name) (values w.panes) ≡ false) same free)
        few in
    let (pane', inside) = grown.there in
    record {
      window' = window';
      added = added;
      valid =
          put_window-ServerOk (spent s) sid wid session window' current
            (Untouched-spent s valid room).valid found there grown.same_id grown.same_name
            grown.valid;
      reported = report_pane-Returns layout sid wid s.next_pane_id _ pane' (
          find_pane-put_window (spent s) sid wid s.next_pane_id session window' found
          ∙ subst (λ k. get k window'.panes ≡ some pane') own inside);
    }

pub create_pane_with_layout-Sound :
    (host : Host) (session_target window_target : Text) (name : Option Text)
    (layout : Option WindowLayout) (s : Server)
    → ServerOk s
    → HasRoom s
    → Sound s (create_pane_with_layout host session_target window_target name layout s)
unfolding create_pane_with_layout
create_pane_with_layout-Sound host session_target window_target name layout s valid room =
    Sound-reads _ _ _ _ (Untouched-refl s valid) (resolve_session_id-calm s session_target)
      (λ sid _.
        Sound-reads _ _ _ _ (Untouched-refl s valid) (resolve_window_id-calm s sid window_target)
          (λ wid _. Sound-gets _ _ _ _ (
            Sound-reads _ _ _ _ (Untouched-refl s valid) (window_at-calm s sid wid) (λ window at.
              Sound-lift _ _ _ _ (Untouched-refl s valid) (guard-calm _ _) (λ _ free.
                Sound-spawn _ _ _ _ _ _ (Untouched-spent s valid room) (λ pane own named.
                  Sound-reads _ _ _ _ (Untouched-spent s valid room)
                    (window_at-calm (spent s) sid wid)
                    (λ current at'.
                      (let finished =
                          finish s sid wid layout pane window current valid room at at' own (
                            subst (λ text. any (named_pane text) (values window.panes) ≡ false)
                              (sym named) (not-true _ (guard-ok _ _ tt free))) in
                        Sound-lift_ok _ _ _ _ finished.window' finished.added (
                          Sound-modify _ _ _ _
                            (Sound-reads_last _ _ _ finished.valid finished.reported))))))))))
