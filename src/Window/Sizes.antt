-- ===== src/Window/Sizes.antt =====
-- Sums of sizes, over ids and over a window.
use caterm.Prelude.{
  ℕ, ◌+◌, ◌-◌, ◌*◌, ◌≤◌, ◌≡◌, refl, true, false, Option, none, some, List, [], ◌∷◌, arith, any,
  length, min, ◌==◌, sym, ◌∙◌, Option-cases, inl, inr, is_some, if◌then◌else◌,
}
use caterm.BTree.{BTree, get, keys, Ascends, contains_key}
use caterm.BTree.Laws.{get-insert, keys-insert, Ascends-keys}
use caterm.Pane.{Pane}
use caterm.Window.{insert_by_index, sort_by_index, ids_of, set_size, assign_sizes, share}
use caterm.Window.Order.{Distinct}

-- The sizes of all panes of a window, added up.
abbrev pub total_size : BTree Pane → ℕ
total_size [] = 0
total_size ((k, pane) ∷ panes) = pane.size + total_size panes

abbrev pub size_or_zero : Option Pane → ℕ
size_or_zero none = 0
size_or_zero (some pane) = pane.size

abbrev pub size_of : ℕ → BTree Pane → ℕ
size_of id panes = size_or_zero (get id panes)

abbrev pub sum_over : List ℕ → BTree Pane → ℕ
sum_over [] panes = 0
sum_over (id ∷ ids) panes = size_of id panes + sum_over ids panes

sum_over-insert :
    (x : ℕ × ℕ) (l : List (ℕ × ℕ)) (panes : BTree Pane)
    → sum_over (ids_of (insert_by_index x l)) panes ≡ size_of x.1 panes + sum_over (ids_of l) panes
unfolding insert_by_index ids_of
sum_over-insert (i, k) [] panes = refl
sum_over-insert (i, k) ((j, l) ∷ rest) panes = ground (arith, sum_over-insert (i, k) rest panes)

pub sum_over-sort :
    (l : List (ℕ × ℕ)) (panes : BTree Pane)
    → sum_over (ids_of (sort_by_index l)) panes ≡ sum_over (ids_of l) panes
unfolding sort_by_index ids_of
sum_over-sort [] panes = refl
sum_over-sort ((i, k) ∷ rest) panes =
    omega (arith, sum_over-insert (i, k) (sort_by_index rest) panes, sum_over-sort rest panes)

-- A pane in front does not change a sum over other ids.
sum_over-cons :
    (ids : List ℕ) (k : ℕ) (pane : Pane) (panes : BTree Pane)
    → any (λ j. j == k) ids ≡ false
    → sum_over ids ((k, pane) ∷ panes) ≡ sum_over ids panes
unfolding get
sum_over-cons [] k pane panes h = refl
sum_over-cons (id ∷ ids) k pane panes h = ground (arith, sum_over-cons ids k pane panes)

pub total-sum_over :
    (panes : BTree Pane) → Distinct (keys panes) → total_size panes ≡ sum_over (keys panes) panes
unfolding get keys
total-sum_over [] d = refl
total-sum_over ((k, pane) ∷ panes) d =
    ground (arith, total-sum_over panes d.1, sum_over-cons (keys panes) k pane panes d.0)

abbrev pub Present : List ℕ → BTree Pane → Type 0
Present [] panes = Unit
Present (id ∷ ids) panes = (is_some (get id panes) ≡ true) × Present ids panes

size_of-set :
    (id j size : ℕ) (panes : BTree Pane)
    → is_some (get id panes) ≡ true
    → size_of j (set_size id size panes) ≡ (if id == j then size else size_of j panes)
unfolding set_size
size_of-set id j size panes h = elim (Option-cases (get id panes)) [
  | inl gone ↦ absurd (ground arith)
  | inr (pane, e) ↦ ground (arith, get-insert id j (record pane { size = size }) panes)
]

is_some-set :
    (id j size : ℕ) (panes : BTree Pane)
    → is_some (get j (set_size id size panes)) ≡ is_some (get j panes)
unfolding set_size
is_some-set id j size panes = elim (Option-cases (get id panes)) [
  | inl gone ↦ ground arith
  | inr (pane, e) ↦ ground (arith, get-insert id j (record pane { size = size }) panes)
]

keys-set :
    (id size : ℕ) (panes : BTree Pane)
    → Ascends 0 panes
    → keys (set_size id size panes) ≡ keys panes
unfolding set_size
keys-set id size panes s = elim (Option-cases (get id panes)) [
  | inl gone ↦ ground arith
  | inr (pane, e) ↦ ground (arith, keys-insert 0 id (record pane { size = size }) pane panes s)
]

Present-set :
    (ids : List ℕ) (id size : ℕ) (panes : BTree Pane)
    → Present ids panes
    → Present ids (set_size id size panes)
Present-set [] id size panes h = tt
Present-set (j ∷ ids) id size panes h =
    (is_some-set id j size panes ∙ h.0, Present-set ids id size panes h.1)

Ascends-set :
    (id size : ℕ) (panes : BTree Pane) → Ascends 0 panes → Ascends 0 (set_size id size panes)
Ascends-set id size panes s = Ascends-keys 0 panes _ (sym (keys-set id size panes s)) s

pub keys-assign :
    (ids : List ℕ) (base remainder : ℕ) (panes : BTree Pane)
    → Ascends 0 panes
    → keys (assign_sizes ids base remainder panes) ≡ keys panes
unfolding assign_sizes
keys-assign [] base remainder panes s = refl
keys-assign (id ∷ ids) base remainder panes s =
    keys-assign ids base _ (set_size id (share base remainder) panes) (Ascends-set id _ panes s)
    ∙ keys-set id (share base remainder) panes s

-- A pane whose id is not in the list keeps its size.
size_of-assign :
    (ids : List ℕ) (j base remainder : ℕ) (panes : BTree Pane)
    → Present ids panes
    → any (λ k. k == j) ids ≡ false
    → size_of j (assign_sizes ids base remainder panes) ≡ size_of j panes
unfolding assign_sizes
size_of-assign [] j base remainder panes p h = refl
size_of-assign (id ∷ ids) j base remainder panes p h =
    size_of-assign ids j base _ (set_size id (share base remainder) panes)
      (Present-set ids id _ panes p.1) (ground arith)
    ∙ size_of-set id j (share base remainder) panes p.0
    ∙ ground arith

-- The loop hands out the base to each pane, and the remainder one by one.
pub sum_over-assign :
    (ids : List ℕ) (base remainder : ℕ) (panes : BTree Pane)
    → Distinct ids
    → Present ids panes
    → sum_over ids (assign_sizes ids base remainder panes)
      ≡ length ids * base + min remainder (length ids)
unfolding assign_sizes
sum_over-assign [] base remainder panes d p = omega arith
sum_over-assign (id ∷ ids) base remainder panes d p =
    let rest = set_size id (share base remainder) panes in
    let left = if contains_key id panes then remainder - 1 else remainder in
    let later : Present ids rest = Present-set ids id (share base remainder) panes p.1 in
    ground (
      arith,
      p.0,
      size_of-assign ids id base left rest later d.0,
      size_of-set id id (share base remainder) panes p.0,
      sum_over-assign ids base left rest d.1 later,
    )

-- Each pane of the list gets the base, or one more.
pub size_of-assign_bounds :
    (ids : List ℕ) (j base remainder : ℕ) (panes : BTree Pane)
    → Distinct ids
    → Present ids panes
    → any (λ k. k == j) ids ≡ true
    → let size = size_of j (assign_sizes ids base remainder panes) in
      (base ≤ size) × (size ≤ base + 1)
unfolding assign_sizes
size_of-assign_bounds [] j base remainder panes d p h = absurd (ground arith)
size_of-assign_bounds (id ∷ ids) j base remainder panes d p h =
    let rest = set_size id (share base remainder) panes in
    let left = if contains_key id panes then remainder - 1 else remainder in
    let later : Present ids rest = Present-set ids id (share base remainder) panes p.1 in
    ground (
      arith,
      p.0,
      d.0,
      size_of-assign ids j base left rest later,
      size_of-set id j (share base remainder) panes p.0,
      size_of-assign_bounds ids j base left rest d.1 later,
    )
