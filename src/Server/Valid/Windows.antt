-- ===== src/Server/Valid/Windows.antt =====
-- How the invariant of a window passes a change of the sizes of its panes.
use caterm.Prelude.{
  ◌-◌, ◌/◌, ◌%◌, ℕ, suc, ◌<◌, ◌≡◌, refl, some, List, [], ◌∷◌, arith, any, ap, sym, ◌∙◌, inl, inr,
  Option-cases, length, ◌==◌, if◌then◌else◌,
}
use caterm.Outcome.{ok}
use caterm.BTree.{BTree, get, contains_key, Ascends}
use caterm.BTree.Laws.{insert-inv, Ascends-keys, get-below}
use caterm.Pane.{Pane}
use caterm.Window.{
  Window, set_size, share, assign_sizes, rebalance_pane_sizes, pane_ids_in_index_order,
}
use caterm.Window.Order.{KeyedById, get-keys, keys-get}
use caterm.Window.Sizes.{keys-assign}
use caterm.Window.Rebalance.{rebalanced, rebalance-eq}
use caterm.Roster.{Roster, Roster-Similar, Similar}
use caterm.Server.Valid.{WindowOk}

abbrev pub PaneRoster : ℕ → BTree Pane → Type 0
PaneRoster np panes = Roster (λ (p : Pane). p.id) (λ p. p.name) (λ _. Unit {0}) np panes

abbrev pub SimilarPanes : BTree Pane → BTree Pane → Type 0
SimilarPanes panes panes' = Similar (λ (p : Pane). p.id) (λ p. p.name) panes panes'

set_size-Similar : (id size : ℕ) (panes : BTree Pane) → SimilarPanes panes (set_size id size panes)
unfolding set_size
set_size-Similar id size panes k v' e = elim (Option-cases (get id panes)) [
  | inl gone ↦ (v', ground arith, refl, refl)
  | inr (pane, found) ↦
      elim (insert-inv id k (record pane { size = size }) v' panes (ground arith)) [
        | inl (at, same) ↦
            (pane, rw at found, ap (λ (p : Pane). p.id) same, ap (λ (p : Pane). p.name) same)
        | inr (ne, old) ↦ (v', old, refl, refl)
      ]
]

assign_sizes-Similar :
    (ids : List ℕ) (base remainder : ℕ) (panes : BTree Pane)
    → SimilarPanes panes (assign_sizes ids base remainder panes)
unfolding assign_sizes
assign_sizes-Similar [] base remainder panes k v' e = (v', e, refl, refl)
assign_sizes-Similar (id ∷ ids) base remainder panes k v' e =
    let rest = set_size id (share base remainder) panes in
    let (v, found, own, same) =
      assign_sizes-Similar ids base (if contains_key id panes then remainder - 1 else remainder)
        rest k v' e in
    let (u, found', own', same') = set_size-Similar id (share base remainder) panes k v found in
    (u, found', own ∙ own', same ∙ same')

keyed_head : (k : ℕ) (pane : Pane) (panes : BTree Pane) → get k ((k, pane) ∷ panes) ≡ some pane
unfolding get
keyed_head k pane panes = ground arith

keyed_tail :
    (k j : ℕ) (pane v : Pane) (panes : BTree Pane)
    → Ascends (suc k) panes
    → get j panes ≡ some v
    → get j ((k, pane) ∷ panes) ≡ some v
unfolding get
keyed_tail k j pane v panes s e = ground (arith, e, get-below (suc k) j panes s)

keyed_below :
    (low np : ℕ) (panes : BTree Pane)
    → Ascends low panes
    → ((k : ℕ) (v : Pane) → get k panes ≡ some v → v.id ≡ k)
    → KeyedById panes
keyed_below low np [] s own = tt
keyed_below low np ((k, pane) ∷ panes) s own = (
  own k pane (keyed_head k pane panes),
  keyed_below (suc k) np panes s.1 (λ j v e. own j v (keyed_tail k j pane v panes s.1 e)),
)

pub Roster-KeyedById : (np : ℕ) (panes : BTree Pane) → PaneRoster np panes → KeyedById panes
Roster-KeyedById np panes r = keyed_below 0 np panes r.sorted (λ k v e. (r.ids k v e).0)

-- Rebalancing takes no pane away.
pub rebalanced-get :
    (k : ℕ) (window : Window) (pane : Pane)
    → Ascends 0 window.panes
    → get k window.panes ≡ some pane
    → (pane' : Pane) × (get k (rebalanced window).panes ≡ some pane')
rebalanced-get k window pane sorted found =
    let count = length window.panes in
    let same =
      keys-assign (pane_ids_in_index_order window) (100 / count) (100 % count) window.panes
        sorted in
    keys-get k (rebalanced window).panes
      (ap (λ l. any (λ j. j == k) l) same ∙ get-keys k window.panes pane found)

pub rebalanced-Roster :
    (np : ℕ) (window : Window)
    → PaneRoster np window.panes
    → PaneRoster np (rebalanced window).panes
rebalanced-Roster np window roster =
    let count = length window.panes in
    let ids = pane_ids_in_index_order window in
    Roster-Similar _ _ _ _ np window.panes _ roster
      (Ascends-keys 0 window.panes _
        (sym (keys-assign ids (100 / count) (100 % count) window.panes roster.sorted))
        roster.sorted)
      (assign_sizes-Similar ids (100 / count) (100 % count) window.panes) (λ _. tt)

pub occupied : (k : ℕ) (u : Pane) (m : BTree Pane) → get k m ≡ some u → 0 < length m
unfolding get
occupied k u [] e = ground arith
occupied k u (x ∷ m) e = omega arith

-- A rebalanced window is as valid as it was.
pub rebalance-WindowOk :
    (np : ℕ) (window : Window)
    → WindowOk np window
    → length window.panes < 65536
    → (rebalance_pane_sizes window ≡ ok (rebalanced window)) × WindowOk np (rebalanced window)
rebalance-WindowOk np window valid few =
    let (a, v, mark, found) = valid.active in
    let (u, found') = rebalanced-get a window v valid.panes.sorted found in
    (
      rebalance-eq window (Roster-KeyedById np window.panes valid.panes) valid.panes.sorted
          (occupied a v window.panes found) few,
      record { panes = rebalanced-Roster np window valid.panes; active = (a, u, mark, found') },
    )
