-- ===== src/Window/Rebalance.antt =====
-- `rebalance_pane_sizes` shares a hundred units among the panes.
use caterm.Prelude.{
  ℕ, ◌+◌, ◌*◌, ◌/◌, ◌%◌, ◌≤◌, ◌<◌, ◌≡◌, refl, true, false, some, List, [], ◌∷◌, arith, any, length,
  min, ◌==◌, ap, sym, ◌∙◌, is_some, is_empty, ==_ne,
}
use native.Mathlib.Nat.{div-add-mod, mod-lt}
use caterm.Outcome.{ok}
use caterm.BTree.{BTree, get, keys, values, Ascends}
use caterm.BTree.Laws.{Ascends-keys}
use caterm.Pane.{Pane}
use caterm.Window.{
  Window, rebalance_pane_sizes, assign_sizes, pane_ids_in_index_order, index_and_id,
}
use caterm.Window.Order.{
  KeyedById, pane_ids-Distinct, length-pane_ids, any-pane_ids, ids-keys, keys-get, get-keys,
  keys-Distinct,
}
use caterm.Window.Sizes.{
  total_size, sum_over, sum_over-sort, total-sum_over, Present, sum_over-assign, keys-assign,
  size_of-assign_bounds,
}

-- Ids that are all keys are all present.
Present-of :
    (ids : List ℕ) (panes : BTree Pane)
    → ((id : ℕ) → any (λ k. k == id) ids ≡ true → is_some (get id panes) ≡ true)
    → Present ids panes
Present-of [] panes h = tt
Present-of (id ∷ ids) panes h =
    (h id (ground arith), Present-of ids panes (λ j m. h j (ground arith)))

nonempty : (panes : BTree Pane) → 0 < length panes → is_empty panes ≡ false
nonempty [] h = absurd (omega arith)
nonempty (x ∷ panes) h = refl

hundred : (n : ℕ) → 0 < n → n * (100 / n) + min (100 % n) n ≡ 100
hundred n h = grind (arith, div-add-mod 100 n, mod-lt 100 h)

module _ (window : Window) (keyed : KeyedById window.panes) (sorted : Ascends 0 window.panes) where
  ids-Present : Present (pane_ids_in_index_order window) window.panes
  ids-Present = Present-of (pane_ids_in_index_order window) window.panes (λ id m.
      let (pane, e) = keys-get id window.panes (sym (any-pane_ids window keyed sorted id) ∙ m) in
      rw e)

  sum_over-pane_ids :
      (panes : BTree Pane)
      → sum_over (pane_ids_in_index_order window) panes ≡ sum_over (keys window.panes) panes
  unfolding pane_ids_in_index_order
  sum_over-pane_ids panes =
      sum_over-sort (index_and_id (values window.panes)) panes
      ∙ ap (λ l. sum_over l panes) (ids-keys window.panes keyed)

  assigned_total :
      (base remainder : ℕ)
      → total_size (assign_sizes (pane_ids_in_index_order window) base remainder window.panes)
        ≡ length window.panes * base + min remainder (length window.panes)
  assigned_total base remainder =
      let ids = pane_ids_in_index_order window in
      let panes = assign_sizes ids base remainder window.panes in
      let same : keys panes ≡ keys window.panes =
        keys-assign ids base remainder window.panes sorted in
      total-sum_over panes
        (keys-Distinct 0 panes (Ascends-keys 0 window.panes panes (sym same) sorted))
      ∙ ap (λ l. sum_over l panes) same
      ∙ sym (sum_over-pane_ids panes)
      ∙ sum_over-assign ids base remainder window.panes (pane_ids-Distinct window keyed sorted)
          ids-Present
      ∙ ap (λ n. n * base + min remainder n) (length-pane_ids window keyed sorted)

  assigned_sizes :
      (id base remainder : ℕ) (pane : Pane)
      → get id (assign_sizes (pane_ids_in_index_order window) base remainder window.panes)
        ≡ some pane
      → (base ≤ pane.size) × (pane.size ≤ base + 1)
  assigned_sizes id base remainder pane e =
      let ids = pane_ids_in_index_order window in
      let panes = assign_sizes ids base remainder window.panes in
      let same : keys panes ≡ keys window.panes =
        keys-assign ids base remainder window.panes sorted in
      let member : any (λ k. k == id) ids ≡ true =
        any-pane_ids window keyed sorted id
        ∙ ap (λ l. any (λ k. k == id) l) (sym same)
        ∙ get-keys id panes pane e in
      ground (
        arith,
        e,
        size_of-assign_bounds ids id base remainder window.panes
            (pane_ids-Distinct window keyed sorted) ids-Present member,
      )

abbrev pub rebalanced : Window → Window
rebalanced window = record window {
  panes =
      assign_sizes (pane_ids_in_index_order window) (100 / length window.panes)
        (100 % length window.panes) window.panes;
}

module _ (window : Window) (keyed : KeyedById window.panes) (sorted : Ascends 0 window.panes) where
  pub rebalance-eq :
      0 < length window.panes
      → length window.panes < 65536
      → rebalance_pane_sizes window ≡ ok (rebalanced window)
  unfolding rebalance_pane_sizes
  rebalance-eq some_pane few =
      let count : length (pane_ids_in_index_order window) % 65536 ≡ length window.panes =
        ap (λ n. n % 65536) (length-pane_ids window keyed sorted) ∙ omega arith in
      rw (nonempty window.panes some_pane, count, ==_ne (length window.panes) 0 (omega arith))

-- With at least one pane and fewer than 65536, each at its id and in ascending order,
-- `rebalance_pane_sizes` returns, the sizes add up to a hundred, and any two of them differ by one at
-- most.
pub rebalance_lem :
    (window : Window)
    → KeyedById window.panes
    → Ascends 0 window.panes
    → 0 < length window.panes
    → length window.panes < 65536
    → (window' : Window) × (rebalance_pane_sizes window ≡ ok window')
      × (total_size window'.panes ≡ 100)
      × ((i j : ℕ) (a b : Pane)
          → get i window'.panes ≡ some a
          → get j window'.panes ≡ some b
          → a.size ≤ b.size + 1)
rebalance_lem window keyed sorted some_pane few =
    let n = length window.panes in
    (
      rebalanced window,
      rebalance-eq window keyed sorted some_pane few,
      assigned_total window keyed sorted (100 / n) (100 % n) ∙ hundred n some_pane,
      λ i j a b ea eb. omega (
        arith,
        assigned_sizes window keyed sorted i (100 / n) (100 % n) a ea,
        assigned_sizes window keyed sorted j (100 / n) (100 % n) b eb,
      ),
    )
