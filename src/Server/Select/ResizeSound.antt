-- ===== src/Server/Select/ResizeSound.antt =====
-- The request that resizes a pane keeps the invariant, and never fails by a panic.
use mathlib.Core.Path.{subst}
use caterm.Prelude.{
  ℕ, zero, suc, ◌<◌, ◌≡◌, refl, ◌≢◌, Option, none, some, List, [], ◌∷◌, arith, ap, sym, ◌∙◌, inl,
  inr, Bool-cases, length, get_elem?, ltb,
}
use caterm.Prelude.Int.{ℤ, as_u16, as_i16, add_i16, sub_i16}
use caterm.Text.{Text}
use caterm.Outcome.{ok, panic, ok_or, expect}
use caterm.BTree.{get, insert}
use caterm.BTree.Laws.{get-insert_self, get-insert_ne}
use caterm.Pane.{Pane}
use caterm.Window
use caterm.Window.{
  Window, pane_ids_in_index_order, position, partner_index, clamp_delta, is_zero, pane_missing,
}
use caterm.Window.Positions.{partner_index-lt, get_elem?-lt, position-get_elem?}
use caterm.Window.Resize.{resize_pane-inv, move_border-eq, with_size}
use caterm.Roster.{Roster-replace, Active-insert}
use caterm.Server.State.{Server}
use caterm.Server.Resolve.Targets.{
  resolve_session_id-calm, resolve_window_id-calm, resolve_pane_id-calm, window_at-calm,
  window_at-get,
}
use caterm.Server.Select.{resize_pane}
use caterm.Server.Select.Place.{Untouched-refl, Place-of, pane_in}
use caterm.Server.Valid.{WindowOk, ServerOk}
use caterm.Server.Valid.Rules.{
  Sound, Sound-reads, Sound-lift, Sound-modify, Sound-reads_last, Sound-lift_ok, ok_or-calm,
  and_then-calm,
}
use caterm.Server.Valid.Windows.{Roster-KeyedById}
use caterm.Server.Valid.Changes.{put_window-ServerOk}

get_elem?-some : (l : List ℕ) (i : ℕ) → i < length l → (x : ℕ) × (get_elem? l i ≡ some x)
get_elem?-some [] i h = absurd (omega arith)
get_elem?-some (x ∷ l) zero h = (x, refl)
get_elem?-some (x ∷ l) (suc i) h = get_elem?-some l i (omega arith)

-- The partner's index is in range.
partner-calm :
    (ids : List ℕ) (id i : ℕ)
    → position id ids ≡ some i
    → expect (get_elem? ids (partner_index i (length ids))) ≢ panic
partner-calm ids id i at e =
    let (k, there) =
      get_elem?-some ids (partner_index i (length ids)) (
        partner_index-lt i (length ids) (get_elem?-lt ids i id (position-get_elem? id i ids at))) in
    ground arith

ok_or-some :
    {A : Type 0} (o : Option A) (message : Text) (a : A) → ok_or o message ≡ ok a → o ≡ some a
ok_or-some none message a e = cc
ok_or-some (some b) message a e = cc

-- `Window::resize_pane` does not panic, whatever the window, the id and the change are.
resize_pane-calm :
    (window : Window) (id : ℕ) (delta : ℤ) → Window.resize_pane window id delta ≢ panic
unfolding Window.resize_pane
resize_pane-calm window id delta = elim (Bool-cases (ltb (length window.panes) 2)) [
  | inl short ↦ λ e. ground arith
  | inr long ↦ elim (Bool-cases (is_zero delta)) [
    | inl nothing ↦ λ e. ground arith
    | inr change ↦
        rw (long, change)
          (let ids = pane_ids_in_index_order window in
            and_then-calm (ok_or (position id ids) (pane_missing id)) _ (ok_or-calm _ _) (λ i at.
              and_then-calm (expect (get_elem? ids (partner_index i (length ids)))) _
                (partner-calm ids id i (ok_or-some _ _ i at))
                (λ partner _.
                  and_then-calm (ok_or (get id window.panes) (pane_missing id)) _ (ok_or-calm _ _)
                    (λ target _.
                      and_then-calm (ok_or (get partner window.panes) (pane_missing partner)) _
                        (ok_or-calm _ _) (λ other _ e. ground arith)))))
  ]
]

-- What the window keeps.
record Kept (np id : ℕ) (window window' : Window) : Type 0 where
  valid : WindowOk np window'
  same_id : window'.id ≡ window.id
  same_name : window'.name ≡ window.name
  there : (pane : Pane) × (get id window'.panes ≡ some pane)

resized_panes :
    (np : ℕ) (window : Window) (j k : ℕ) (a b a' b' : Pane)
    → WindowOk np window
    → get j window.panes ≡ some a
    → get k window.panes ≡ some b
    → k ≢ j
    → (a'.id ≡ a.id) × (a'.name ≡ a.name)
    → (b'.id ≡ b.id) × (b'.name ≡ b.name)
    → Kept np j window (record window { panes = insert k b' (insert j a' window.panes) })
resized_panes np window j k a b a' b' valid ea eb ne (ia, na) (ib, nb) =
    let first_step =
      Roster-replace _ _ _ np j a' a window.panes valid.panes ea (ia ∙ (valid.panes.ids j a ea).0)
        na tt in
    let after = get-insert_ne j k a' window.panes ne ∙ eb in
    record {
      valid = record {
        panes =
            Roster-replace _ _ _ np k b' b (insert j a' window.panes) first_step after
              (ib ∙ (valid.panes.ids k b eb).0) nb tt;
        active =
            Active-insert window.active_pane_id k b' (insert j a' window.panes)
              (Active-insert window.active_pane_id j a' window.panes valid.active);
      };
      same_id = refl;
      same_name = refl;
      there = (
        a',
        get-insert_ne k j b' (insert j a' window.panes) (λ e. ne (sym e))
            ∙ get-insert_self j a' window.panes,
      );
    }

resize_pane-Kept :
    (np id : ℕ) (delta : ℤ) (window window' : Window) (pane : Pane)
    → WindowOk np window
    → get id window.panes ≡ some pane
    → Window.resize_pane window id delta ≡ ok window'
    → Kept np id window window'
unfolding Window.resize_pane
resize_pane-Kept np id delta window window' pane valid found h = elim (Bool-cases (is_zero delta)) [
  | inl nothing ↦
      let same : window ≡ window' = ground arith in
      subst (Kept np id window) same
        (record { valid = valid; same_id = refl; same_name = refl; there = (pane, found) })
  | inr change ↦
      let r =
        resize_pane-inv window (Roster-KeyedById np window.panes valid.panes) valid.panes.sorted id
          delta window' h change in
      let d = clamp_delta delta r.target.size r.partner.size in
      let target' = with_size r.target (as_u16 (add_i16 (as_i16 r.target.size) d)) in
      let partner' = with_size r.partner (as_u16 (sub_i16 (as_i16 r.partner.size) d)) in
      let panes =
        move_border-eq id r.partner_id r.target r.partner d window.panes r.target_found
          r.partner_found r.ids_differ in
      subst (Kept np id window) (ap (λ m. record window { panes = m }) (sym panes) ∙ sym r.result) (
        resized_panes np window id r.partner_id r.target r.partner target' partner' valid
          r.target_found r.partner_found r.ids_differ (refl, refl) (refl, refl))
]

pub resize_pane-Sound :
    (session_target window_target target : Text) (delta : ℤ) (s : Server)
    → ServerOk s
    → Sound s (resize_pane session_target window_target target delta s)
unfolding resize_pane
resize_pane-Sound session_target window_target target delta s valid =
    Sound-reads _ _ _ _ (Untouched-refl s valid) (resolve_session_id-calm s session_target)
      (λ sid _.
        Sound-reads _ _ _ _ (Untouched-refl s valid) (resolve_window_id-calm s sid window_target)
          (λ wid _.
            Sound-reads _ _ _ _ (Untouched-refl s valid) (resolve_pane_id-calm s sid wid target)
              (λ pid resolved.
                Sound-reads _ _ _ _ (Untouched-refl s valid) (window_at-calm s sid wid)
                  (λ window at.
                    Sound-lift _ _ _ _ (Untouched-refl s valid) (resize_pane-calm window pid delta)
                      (λ resized done.
                        let (session, found, there) = window_at-get s sid wid window at in
                        let place = Place-of s sid wid session window valid found there in
                        let (pane, inside) =
                          pane_in s sid wid pid target window valid resolved at in
                        let kept =
                          resize_pane-Kept s.next_pane_id pid delta window resized pane
                            place.window_ok inside done in
                        Sound-modify _ _ _ _ (
                          Sound-lift_ok _ _ _ _ kept.there.0
                            (ap (λ (o : Option Pane). expect o) kept.there.1)
                            (Sound-reads_last _ _ _
                              (put_window-ServerOk s sid wid session resized window valid found
                                there kept.same_id kept.same_name kept.valid)
                              tt)))))))
