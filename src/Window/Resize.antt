-- ===== src/Window/Resize.antt =====
-- `resize_pane` moves a border between two panes and keeps the sum of the sizes.
use caterm.Prelude.{
  ℕ, suc, ◌+◌, ◌≤◌, ◌<◌, ◌≡◌, ◌≢◌, ◌⊎◌, inl, inr, true, false, some, [], ◌∷◌, arith, length,
  get_elem?, ltb, ◌∙◌, Bool-cases, Option-cases, ==_ne,
}
use caterm.Prelude.Int.{ℤ, as_i16, as_u16, add_i16, sub_i16}
use caterm.Outcome.{ok}
use caterm.BTree.{BTree, get, insert, Ascends}
use caterm.BTree.Laws.{get-insert, get-below, Ascends-insert}
use caterm.Pane.{Pane}
use caterm.Window.{
  Window, resize_pane, pane_ids_in_index_order, position, partner_index, clamp_delta, move_border,
  set_size, is_zero,
}
use caterm.Window.Order.{KeyedById, pane_ids-Distinct, length-pane_ids}
use caterm.Window.Sizes.{total_size}
use caterm.Window.Clamp.{Moves, Clamped-Moves, clamp_delta-Clamped}
use caterm.Window.Positions.{partner_ne}

total_size-insert :
    (low k : ℕ) (old new : Pane) (panes : BTree Pane)
    → Ascends low panes
    → get k panes ≡ some old
    → total_size (insert k new panes) + old.size ≡ total_size panes + new.size
unfolding insert get
total_size-insert low k old new [] s e = absurd (ground arith)
total_size-insert low k old new ((j, p) ∷ panes) s e =
    ground (arith, total_size-insert (suc j) k old new panes s.1, get-below (suc j) k panes s.1)

-- What a successful call with a change has done.
pub record Resized (window : Window) (id : ℕ) (delta : ℤ) (window' : Window) : Type 0 where
  pub partner_id : ℕ
  pub target : Pane
  pub partner : Pane
  pub target_found : get id window.panes ≡ some target
  pub partner_found : get partner_id window.panes ≡ some partner
  pub ids_differ : partner_id ≢ id
  pub nonzero : is_zero (clamp_delta delta target.size partner.size) ≡ false
  pub result : window' ≡ record window {
    panes =
        move_border id partner_id target.size partner.size
          (clamp_delta delta target.size partner.size)
          window.panes;
  }

module _ (window : Window) (keyed : KeyedById window.panes) (sorted : Ascends 0 window.panes)
    (id : ℕ) (delta : ℤ) (window' : Window) where
  pub resize_pane-inv :
      resize_pane window id delta ≡ ok window'
      → is_zero delta ≡ false
      → Resized window id delta window'
  unfolding resize_pane
  resize_pane-inv h nonzero =
      let ids = pane_ids_in_index_order window in
      elim (Bool-cases (ltb (length window.panes) 2)) [
        | inl short ↦ absurd (ground arith)
        | inr long ↦ elim (Option-cases (position id ids)) [
          | inl e ↦ absurd (ground arith)
          | inr (i, at) ↦ elim (Option-cases (get_elem? ids (partner_index i (length ids)))) [
            | inl e ↦ absurd (ground arith)
            | inr (partner_id, there) ↦ elim (Option-cases (get id window.panes)) [
              | inl e ↦ absurd (ground arith)
              | inr (target, found) ↦ elim (Option-cases (get partner_id window.panes)) [
                | inl e ↦ absurd (ground arith)
                | inr (partner, found') ↦
                    elim (Bool-cases (is_zero (clamp_delta delta target.size partner.size))) [
                      | inl zero_change ↦ absurd (ground arith)
                      | inr change ↦ record {
                        partner_id = partner_id;
                        target = target;
                        partner = partner;
                        target_found = found;
                        partner_found = found';
                        ids_differ =
                            partner_ne ids id i partner_id (pane_ids-Distinct window keyed sorted)
                              (rw (length-pane_ids window keyed sorted) (ground arith)) at there;
                        nonzero = change;
                        result = ground arith;
                      }
                    ]
              ]
            ]
          ]
        ]
      ]

abbrev pub with_size : Pane → ℕ → Pane
with_size pane size = record pane { size = size }

pub move_border-eq :
    (id partner_id : ℕ) (target partner : Pane) (change : ℤ) (panes : BTree Pane)
    → get id panes ≡ some target
    → get partner_id panes ≡ some partner
    → partner_id ≢ id
    → move_border id partner_id target.size partner.size change panes
      ≡ insert partner_id
          (with_size partner (as_u16 (sub_i16 (as_i16 partner.size) change)))
          (insert id (with_size target (as_u16 (add_i16 (as_i16 target.size) change))) panes)
unfolding move_border set_size
move_border-eq id partner_id target partner change panes found found' differ =
    let target' = with_size target (as_u16 (add_i16 (as_i16 target.size) change)) in
    let step : get partner_id (insert id target' panes) ≡ some partner =
      get-insert id partner_id target' panes ∙ ground (arith, found', ==_ne id partner_id) in
    ground (arith, found, step)

-- The effect on the panes: two sizes change, and the sum does not.
pub record Shifted (panes : BTree Pane) (id : ℕ) (panes' : BTree Pane) : Type 0 where
  pub total : total_size panes' ≡ total_size panes
  pub partner_id : ℕ
  pub target : Pane
  pub target' : Pane
  pub partner : Pane
  pub partner' : Pane
  pub ids_differ : partner_id ≢ id
  pub before_target : get id panes ≡ some target
  pub before_partner : get partner_id panes ≡ some partner
  pub after_target : get id panes' ≡ some target'
  pub after_partner : get partner_id panes' ≡ some partner'
  pub moves : Moves target.size partner.size target'.size partner'.size
  pub others : (k : ℕ) → k ≢ id → k ≢ partner_id → get k panes' ≡ get k panes

module _ (panes : BTree Pane) (sorted : Ascends 0 panes) (id partner_id : ℕ) (target partner : Pane)
    (found : get id panes ≡ some target) (found' : get partner_id panes ≡ some partner)
    (differ : partner_id ≢ id) (size size' : ℕ)
    (moves : Moves target.size partner.size size size') where
  insert-Shifted :
      Shifted panes id
        (insert partner_id (with_size partner size') (insert id (with_size target size) panes))
  insert-Shifted =
      let middle = insert id (with_size target size) panes in
      let kept : get partner_id middle ≡ some partner =
        get-insert id partner_id (with_size target size) panes
        ∙ ground (arith, found', ==_ne id partner_id) in
      record {
        total = omega (
          arith,
          moves.0,
          total_size-insert 0 id target (with_size target size) panes sorted found,
          total_size-insert 0 partner_id partner (with_size partner size') middle
              (Ascends-insert 0 id (with_size target size) panes (omega arith) sorted) kept,
        );
        partner_id = partner_id;
        target = target;
        target' = with_size target size;
        partner = partner;
        partner' = with_size partner size';
        ids_differ = differ;
        before_target = found;
        before_partner = found';
        after_target = simp get-insert (ground arith);
        after_partner = simp get-insert (ground arith);
        moves = moves;
        others = λ k a b. simp get-insert (ground arith);
      }

size-le-total :
    (k : ℕ) (pane : Pane) (panes : BTree Pane)
    → get k panes ≡ some pane
    → pane.size ≤ total_size panes
unfolding get
size-le-total k pane [] e = absurd (ground arith)
size-le-total k pane ((j, p) ∷ panes) e = ground (arith, size-le-total k pane panes)

Resized-Shifted :
    (window : Window)
    → KeyedById window.panes
    → Ascends 0 window.panes
    → total_size window.panes < 16384
    → (id : ℕ) (delta : ℤ) (window' : Window) → is_zero delta ≡ false
    → Resized window id delta window'
    → Shifted window.panes id window'.panes
Resized-Shifted window keyed sorted small id delta window' change r =
    let fits : r.target.size + r.partner.size < 32768 = omega (
      arith,
      size-le-total id r.target window.panes r.target_found,
      size-le-total r.partner_id r.partner window.panes r.partner_found,
    ) in
    rw r.result (
      rw
        (move_border-eq id r.partner_id r.target r.partner
          (clamp_delta delta r.target.size r.partner.size) window.panes r.target_found
          r.partner_found r.ids_differ)
        (insert-Shifted window.panes sorted id r.partner_id r.target r.partner r.target_found
          r.partner_found r.ids_differ _ _
          (Clamped-Moves (clamp_delta delta r.target.size r.partner.size) r.target.size
            r.partner.size fits r.nonzero
            (clamp_delta-Clamped delta r.target.size r.partner.size fits change))))

-- With every pane at its id and in ascending order, a successful resize by zero changes nothing; any other one moves the border between the pane and
-- a partner: their sizes keep their sum, the one that shrinks keeps at least ten, and no other pane
-- changes. The sizes must add up to less than 2^14.
pub resize_pane_lem :
    (window : Window) (id : ℕ) (delta : ℤ) (window' : Window)
    → KeyedById window.panes
    → Ascends 0 window.panes
    → total_size window.panes < 16384
    → resize_pane window id delta ≡ ok window'
    → ((is_zero delta ≡ true) × (window' ≡ window)) ⊎ Shifted window.panes id window'.panes
resize_pane_lem window id delta window' keyed sorted small h = elim (Bool-cases (is_zero delta)) [
  | inl nothing ↦ inl (nothing, unfold resize_pane in ground arith)
  | inr change ↦ inr (
      Resized-Shifted window keyed sorted small id delta window' change
        (resize_pane-inv window keyed sorted id delta window' h change))
]
