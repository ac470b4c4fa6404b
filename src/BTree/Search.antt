-- ===== src/BTree/Search.antt =====
-- Searches over the values: what `any`, `find` and the first key say of a lookup.
use caterm.Prelude.{
  ℕ, suc, ◌≡◌, refl, ◌≢◌, Bool, true, false, some, [], ◌∷◌, arith, any, find, first, length,
  Bool-cases, inl, inr, ◌==◌,
}
use caterm.BTree.{BTree, get, remove, values, keys, Ascends}
use caterm.BTree.Laws.{get-below}

module _ {ℓ} {V : Type ℓ} where
  -- If no value passes the test, none that is found does.
  pub any-get :
      (p : V → Bool) (k : ℕ) (m : BTree V) (v : V)
      → any p (values m) ≡ false
      → get k m ≡ some v
      → p v ≡ false
  unfolding get values
  any-get p k [] v h e = ground arith
  any-get p k ((j, w) ∷ m) v h e = ground (arith, any-get p k m v)

  -- The value that is found passes the test and stands at some key.
  pub find-get :
      (p : V → Bool) (m : BTree V) (v : V) (low : ℕ)
      → Ascends low m
      → find p (values m) ≡ some v
      → (k : ℕ) × (get k m ≡ some v) × (p v ≡ true)
  unfolding get values
  find-get p [] v low s e = absurd (ground arith)
  find-get p ((j, w) ∷ m) v low s e = elim (Bool-cases (p w)) [
    | inl yes' ↦ (j, ground arith, ground arith)
    | inr no' ↦
        let (k, found, holds) = find-get p m v (suc j) s.1 (ground arith) in
        (k, ground (arith, get-below (suc j) k m s.1), holds)
  ]

  -- A map that holds something has a first key, and it is there.
  pub first-get :
      (m : BTree V) (k : ℕ) (v : V)
      → get k m ≡ some v
      → (j : ℕ) × (w : V) × (first (keys m) ≡ some j) × (get j m ≡ some w)
  unfolding get keys
  first-get [] k v e = absurd (ground arith)
  first-get ((j, w) ∷ m) k v e = (j, w, refl, ground arith)

  -- With more than one entry there is another one.
  pub other_entry :
      (k : ℕ) (m : BTree V) (low : ℕ)
      → Ascends low m
      → length m ≢ 0
      → length m ≢ 1
      → (j : ℕ) × (v : V) × (get j (remove k m) ≡ some v)
  unfolding get remove
  other_entry k [] low s h0 h1 = absurd (h0 refl)
  other_entry k (x ∷ []) low s h0 h1 = absurd (h1 refl)
  other_entry k ((j, w) ∷ (j', w') ∷ m) low s h0 h1 = elim (Bool-cases (j == k)) [
    | inl hit ↦ (j', w', ground arith)
    | inr miss ↦ (j, w, ground arith)
  ]

  length-get : (k : ℕ) (m : BTree V) (v : V) → get k m ≡ some v → length m ≢ 0
  unfolding get
  length-get k [] v e = ground arith
  length-get k (x ∷ m) v e = omega arith
