-- ===== src/Window/Order.antt =====
-- The ids in index order are the ids of the panes, each as often as before.
use caterm.Prelude.{
  ℕ, suc, ◌<◌, ◌≡◌, refl, true, false, ◌||◌, some, List, [], ◌∷◌, arith, any, length, ◌==◌, ap, sym,
  ◌∙◌, Bool-cases, inl, inr,
}
use caterm.BTree.{BTree, get, values, keys, Ascends}
use caterm.BTree.Laws.{length-keys}
use caterm.Pane.{Pane}
use caterm.Window.{
  Window, insert_by_index, sort_by_index, index_and_id, ids_of, pane_ids_in_index_order,
}

-- `id` is among the ids.
abbrev pub Among : ℕ → List ℕ → Type 0
Among id ids = any (λ k. k == id) ids ≡ true

abbrev pub Distinct : List ℕ → Type 0
Distinct [] = Unit
Distinct (k ∷ ids) = (any (λ j. j == k) ids ≡ false) × Distinct ids

any-insert :
    (id : ℕ) (x : ℕ × ℕ) (l : List (ℕ × ℕ))
    → any (λ k. k == id) (ids_of (insert_by_index x l))
      ≡ (x.1 == id || any (λ k. k == id) (ids_of l))
unfolding insert_by_index ids_of
any-insert id (i, k) [] = refl
any-insert id (i, k) ((j, l) ∷ rest) = ground (arith, any-insert id (i, k) rest)

any-sort :
    (id : ℕ) (l : List (ℕ × ℕ))
    → any (λ k. k == id) (ids_of (sort_by_index l)) ≡ any (λ k. k == id) (ids_of l)
unfolding sort_by_index ids_of
any-sort id [] = refl
any-sort id ((i, k) ∷ rest) =
    any-insert id (i, k) (sort_by_index rest) ∙ ap (λ b. k == id || b) (any-sort id rest)

Distinct-insert :
    (x : ℕ × ℕ) (l : List (ℕ × ℕ))
    → any (λ k. k == x.1) (ids_of l) ≡ false
    → Distinct (ids_of l)
    → Distinct (ids_of (insert_by_index x l))
unfolding insert_by_index ids_of
Distinct-insert (i, k) [] h d = (refl, tt)
Distinct-insert (i, k) ((j, l) ∷ rest) h d =
    ground (arith, Distinct-insert (i, k) rest, any-insert l (i, k) rest)

Distinct-sort : (l : List (ℕ × ℕ)) → Distinct (ids_of l) → Distinct (ids_of (sort_by_index l))
unfolding sort_by_index ids_of
Distinct-sort [] d = tt
Distinct-sort ((i, k) ∷ rest) d =
    Distinct-insert (i, k) (sort_by_index rest) (any-sort k rest ∙ d.0) (Distinct-sort rest d.1)

length-insert_by_index :
    (x : ℕ × ℕ) (l : List (ℕ × ℕ)) → length (ids_of (insert_by_index x l)) ≡ suc (length (ids_of l))
unfolding insert_by_index ids_of
length-insert_by_index (i, k) [] = refl
length-insert_by_index (i, k) ((j, l) ∷ rest) = ground (arith, length-insert_by_index (i, k) rest)

length-sort : (l : List (ℕ × ℕ)) → length (ids_of (sort_by_index l)) ≡ length (ids_of l)
unfolding sort_by_index ids_of
length-sort [] = refl
length-sort ((i, k) ∷ rest) =
    length-insert_by_index (i, k) (sort_by_index rest) ∙ ap suc (length-sort rest)

-- Every pane stands at the key that is its id.
abbrev pub KeyedById : BTree Pane → Type 0
KeyedById [] = Unit
KeyedById ((k, pane) ∷ panes) = (pane.id ≡ k) × KeyedById panes

pub ids-keys :
    (panes : BTree Pane) → KeyedById panes → ids_of (index_and_id (values panes)) ≡ keys panes
unfolding index_and_id ids_of values keys
ids-keys [] h = refl
ids-keys ((k, pane) ∷ panes) h = ground (arith, ids-keys panes h.1, h.0)

keys-absent :
    (low id : ℕ) (panes : BTree Pane)
    → Ascends low panes
    → id < low
    → any (λ k. k == id) (keys panes) ≡ false
unfolding keys
keys-absent low id [] s h = refl
keys-absent low id ((k, pane) ∷ panes) s h = ground (arith, keys-absent (suc k) id panes s.1)

pub keys-Distinct : (low : ℕ) (panes : BTree Pane) → Ascends low panes → Distinct (keys panes)
unfolding keys
keys-Distinct low [] s = tt
keys-Distinct low ((k, pane) ∷ panes) s =
    (keys-absent (suc k) k panes s.1 (omega arith), keys-Distinct (suc k) panes s.1)

pub keys-get :
    (id : ℕ) (panes : BTree Pane)
    → any (λ k. k == id) (keys panes) ≡ true
    → (pane : Pane) × (get id panes ≡ some pane)
unfolding keys get
keys-get id [] h = absurd (ground arith)
keys-get id ((k, pane) ∷ panes) h = elim (Bool-cases (k == id)) [
  | inl hit ↦ (pane, rw hit)
  | inr miss ↦ let (found, e) = keys-get id panes (ground arith) in (found, ground (arith, e))
]

pub get-keys :
    (id : ℕ) (panes : BTree Pane) (pane : Pane)
    → get id panes ≡ some pane
    → any (λ k. k == id) (keys panes) ≡ true
unfolding keys get
get-keys id [] pane h = ground arith
get-keys id ((k, p) ∷ panes) pane h = ground (arith, get-keys id panes pane)

module _ (window : Window) (keyed : KeyedById window.panes) (sorted : Ascends 0 window.panes) where
  pub pane_ids-Distinct : Distinct (pane_ids_in_index_order window)
  unfolding pane_ids_in_index_order
  pane_ids-Distinct =
      Distinct-sort (index_and_id (values window.panes))
        (rw (ids-keys window.panes keyed) (keys-Distinct 0 window.panes sorted))

  pub length-pane_ids : length (pane_ids_in_index_order window) ≡ length window.panes
  unfolding pane_ids_in_index_order
  length-pane_ids =
      length-sort (index_and_id (values window.panes))
      ∙ ap (λ l. length l) (ids-keys window.panes keyed)
      ∙ length-keys window.panes

  pub any-pane_ids :
      (id : ℕ)
      → any (λ k. k == id) (pane_ids_in_index_order window) ≡ any (λ k. k == id) (keys window.panes)
  unfolding pane_ids_in_index_order
  any-pane_ids id =
      any-sort id (index_and_id (values window.panes))
      ∙ ap (λ l. any (λ k. k == id) l) (ids-keys window.panes keyed)

  -- The ids are those of the panes.
  pane_ids-get :
      (id : ℕ)
      → Among id (pane_ids_in_index_order window)
      → (pane : Pane) × (get id window.panes ≡ some pane)
  pane_ids-get id h = keys-get id window.panes (sym (any-pane_ids id) ∙ h)
