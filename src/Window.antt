-- ===== src/Window.antt =====
-- A window: its panes, their layout and their sizes (caterm/src/session_manager/window.rs).
pub mod Order
pub mod Sizes
pub mod Rebalance
pub mod Clamp
pub mod Positions
pub mod Resize
use caterm.Prelude.{
  ℕ, zero, suc, ◌+◌, ◌-◌, ◌/◌, ◌%◌, ◌^◌, Bool, true, false, ◌||◌, Option, none, some, List, [], ◌∷◌,
  ◌++◌, map, length, get_elem?, max, ltb, leb, ◌==◌, if◌then◌else◌, is_empty, map_opt,
}
use caterm.Prelude.Int.{
  ℤ, pos, negsuc, as_i16, as_u16, add_i16, sub_i16, neg_i16, min_ℤ, max_ℤ, ltb_ℤ,
}
use caterm.Text.{Text, codes, text_eq}
use caterm.Text.Decimal.{to_string}
use caterm.Outcome.{Outcome, ok, err, panic, ok_or, expect, and_then, guard}
use caterm.BTree.{BTree, get, insert, values, contains_key}
use caterm.Snapshot.{WindowSnapshot}
use caterm.Pane
use caterm.Pane.{Pane}

pub data WindowLayout : Type 0 where
  single tiled horizontal vertical : WindowLayout

pub record Window : Type 0 where
  pub id : ℕ
  pub index : ℕ
  pub name : Text
  pub layout : WindowLayout
  pub panes : BTree Pane
  pub active_pane_id : Option ℕ

abbrev pub min_pane_size : ℕ
min_pane_size = 10

-- `WindowLayout::as_str`
unfoldable pub as_str : WindowLayout → Text
as_str single = codes "single"
as_str tiled = codes "tiled"
as_str horizontal = codes "horizontal"
as_str vertical = codes "vertical"

unfoldable pub matches_target : Window → Text → Bool
matches_target window target = text_eq window.name target || text_eq (to_string window.index) target

-- `.map(|pane| pane.index).max()`
unfoldable pub max_index : List Pane → Option ℕ
max_index [] = none
max_index (pane ∷ panes) = elim (max_index panes) [
  | none ↦ some pane.index
  | some best ↦ some (max pane.index best)
]

-- The index wraps at 2^32, as in a release build.
unfoldable pub next_pane_index : Window → ℕ
next_pane_index window = elim (max_index (values window.panes)) [
  | none ↦ 0
  | some index ↦ (index + 1) % 2 ^ 32
]

abbrev pub keep_split : WindowLayout → WindowLayout
keep_split single = tiled
keep_split tiled = tiled
keep_split horizontal = horizontal
keep_split vertical = vertical

unfoldable pub sync_layout : Window → Window
sync_layout window = record window {
  layout = if leb (length window.panes) 1 then single else keep_split window.layout;
}

unfoldable pub set_split_layout : Window → WindowLayout → Window
set_split_layout window layout = record window {
  layout = if leb (length window.panes) 1 then single else layout;
}

-- `sort_by_key`, which is stable: an equal key goes behind those that came before it.
unfoldable pub insert_by_index : ℕ × ℕ → List (ℕ × ℕ) → List (ℕ × ℕ)
insert_by_index (i, k) [] = (i, k) ∷ []
insert_by_index (i, k) ((j, l) ∷ rest) =
    let later = insert_by_index (i, k) rest in
    if leb i j then (i, k) ∷ (j, l) ∷ rest else (j, l) ∷ later

unfoldable pub sort_by_index : List (ℕ × ℕ) → List (ℕ × ℕ)
sort_by_index [] = []
sort_by_index (x ∷ rest) = insert_by_index x (sort_by_index rest)

unfoldable pub index_and_id : List Pane → List (ℕ × ℕ)
index_and_id [] = []
index_and_id (pane ∷ panes) = (pane.index, pane.id) ∷ index_and_id panes

unfoldable pub ids_of : List (ℕ × ℕ) → List ℕ
ids_of [] = []
ids_of ((i, k) ∷ rest) = k ∷ ids_of rest

unfoldable pub pane_ids_in_index_order : Window → List ℕ
pane_ids_in_index_order window = ids_of (sort_by_index (index_and_id (values window.panes)))

-- `if let Some(pane) = panes.get_mut(&id) { pane.size = size }`
unfoldable pub set_size : ℕ → ℕ → BTree Pane → BTree Pane
set_size id size panes = elim (get id panes) [
  | none ↦ panes
  | some pane ↦ insert id (record pane { size = size }) panes
]

-- The size of the next pane while `remainder` units are left to hand out.
abbrev pub share : ℕ → ℕ → ℕ
share base remainder = base + (if ltb 0 remainder then 1 else 0)

-- The loop of `rebalance_pane_sizes`. The remainder falls only when the pane is there.
unfoldable pub assign_sizes : List ℕ → ℕ → ℕ → BTree Pane → BTree Pane
assign_sizes [] base remainder panes = panes
assign_sizes (id ∷ ids) base remainder panes =
    assign_sizes ids base (if contains_key id panes then remainder - 1 else remainder)
      (set_size id (share base remainder) panes)

-- `count as u16` wraps, and a division by zero panics.
unfoldable pub rebalance_pane_sizes : Window → Outcome Window
rebalance_pane_sizes window =
    if is_empty window.panes
    then ok window
    else (let pane_ids = pane_ids_in_index_order window in
        let count = length pane_ids % 65536 in
        if count == 0
        then panic
        else ok (record window {
          panes = assign_sizes pane_ids (100 / count) (100 % count) window.panes;
        }))

-- `position`
unfoldable pub position : ℕ → List ℕ → Option ℕ
position id [] = none
position id (k ∷ ids) = if k == id then some 0 else map_opt suc (position id ids)

unfoldable pub partner_index : ℕ → ℕ → ℕ
partner_index target count = if ltb (target + 1) count then target + 1 else target - 1

-- The change of the target's size that keeps the shrinking pane at its minimum.
unfoldable pub clamp_delta : ℤ → ℕ → ℕ → ℤ
clamp_delta delta target_size partner_size =
    if ltb_ℤ (pos 0) delta
    then min_ℤ delta (as_i16 (partner_size - min_pane_size))
    else max_ℤ delta (neg_i16 (as_i16 (target_size - min_pane_size)))

abbrev pub is_zero : ℤ → Bool
is_zero (pos n) = n == 0
is_zero (negsuc n) = false

abbrev pub pane_missing : ℕ → Text
pane_missing id = codes "pane " ++ (to_string id ++ codes " not found")

-- The two writes at the end of `resize_pane`.
unfoldable pub move_border : ℕ → ℕ → ℕ → ℕ → ℤ → BTree Pane → BTree Pane
move_border target partner target_size partner_size delta panes =
    let moved = set_size target (as_u16 (add_i16 (as_i16 target_size) delta)) panes in
    elim (get partner moved) [
      | none ↦ moved
      | some other ↦
          insert partner (record other { size = as_u16 (sub_i16 (as_i16 other.size) delta) }) moved
    ]

unfoldable pub resize_pane : Window → ℕ → ℤ → Outcome Window
resize_pane window pane_id delta =
    if ltb (length window.panes) 2
    then err (codes "cannot resize a window with fewer than 2 panes")
    else if is_zero delta
    then ok window
    else (let pane_ids = pane_ids_in_index_order window in
        and_then (ok_or (position pane_id pane_ids) (pane_missing pane_id)) (λ target_index.
          and_then (expect (get_elem? pane_ids (partner_index target_index (length pane_ids))))
            (λ partner_id.
              and_then (ok_or (get pane_id window.panes) (pane_missing pane_id)) (λ target.
                and_then (ok_or (get partner_id window.panes) (pane_missing partner_id)) (λ partner.
                  let change = clamp_delta delta target.size partner.size in
                  if is_zero change
                  then err (codes "resize would exceed the minimum pane size of 10")
                  else ok (record window {
                    panes =
                        move_border pane_id partner_id target.size partner.size change window.panes;
                  }))))))

abbrev pub find_active : Option ℕ → BTree Pane → Option Pane
find_active none panes = none
find_active (some id) panes = get id panes

unfoldable pub snapshot : Window → WindowSnapshot
snapshot window = record {
  id = window.id;
  index = window.index;
  name = window.name;
  layout = as_str window.layout;
  active_pane_id = window.active_pane_id;
  active_pane_index = map_opt (λ pane. pane.index) (find_active window.active_pane_id window.panes);
  panes = map Pane.snapshot (values window.panes);
}
