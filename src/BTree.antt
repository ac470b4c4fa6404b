-- ===== src/BTree.antt =====
-- Rust's `BTreeMap<u64, V>`: the entries in ascending order of their keys.
pub mod Laws
pub mod Search
use caterm.Prelude.{
  ℕ, suc, ◌≤◌, Bool, Option, none, some, List, [], ◌∷◌, ltb, ◌==◌, if◌then◌else◌, is_some,
}

abbrev pub BTree {ℓ} : Type ℓ → Type ℓ
BTree V = List (ℕ × V)

module _ {ℓ} {V : Type ℓ} where
  unfoldable pub get : ℕ → BTree V → Option V
  get k [] = none
  get k ((j, v) ∷ m) = if j == k then some v else get k m

  -- `contains_key`
  abbrev pub contains_key : ℕ → BTree V → Bool
  contains_key k m = is_some (get k m)

  -- `insert`, which replaces the value of a key that is there. A change through `get_mut` is the
  -- `insert` of the changed value.
  unfoldable pub insert : ℕ → V → BTree V → BTree V
  insert k v [] = (k, v) ∷ []
  insert k v ((j, w) ∷ m) =
      let rest = insert k v m in
      if ltb k j then (k, v) ∷ (j, w) ∷ m else if j == k then (k, v) ∷ m else (j, w) ∷ rest

  unfoldable pub remove : ℕ → BTree V → BTree V
  remove k [] = []
  remove k ((j, w) ∷ m) = let rest = remove k m in if j == k then rest else (j, w) ∷ rest

  unfoldable pub values : BTree V → List V
  values [] = []
  values ((j, w) ∷ m) = w ∷ values m

  unfoldable pub keys : BTree V → List ℕ
  keys [] = []
  keys ((j, w) ∷ m) = j ∷ keys m

-- The keys ascend strictly, from `low` on.
abbrev pub Ascends {ℓ} : {V : Type ℓ} → ℕ → BTree V → Type 0
Ascends low [] = Unit
Ascends low ((k, v) ∷ m) = (low ≤ k) × Ascends (suc k) m
