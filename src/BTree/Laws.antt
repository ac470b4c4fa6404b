-- ===== src/BTree/Laws.antt =====
-- Lookup after each operation, and the order of the keys.
use caterm.Prelude.{
  ℕ, suc, ◌+◌, ◌≤◌, ◌<◌, ◌≡◌, refl, ap, ◌≢◌, none, some, [], ◌∷◌, arith, length, ◌==◌, ◌⊎◌, inl,
  inr, Bool-cases, if◌then◌else◌,
}
use caterm.BTree.{BTree, get, insert, remove, keys, Ascends}

module _ {ℓ} {V : Type ℓ} where
  pub get-insert :
      (k j : ℕ) (v : V) (m : BTree V) → get j (insert k v m) ≡ (if k == j then some v else get j m)
  unfolding get insert
  get-insert k j v [] = refl
  get-insert k j v ((i, w) ∷ m) = ground (arith, get-insert k j v m)

  pub get-remove : (k j : ℕ) (m : BTree V) → get j (remove k m) ≡ (if k == j then none else get j m)
  unfolding get remove
  get-remove k j [] = ground arith
  get-remove k j ((i, w) ∷ m) = ground (arith, get-remove k j m)

  pub Ascends-insert :
      (low k : ℕ) (v : V) (m : BTree V) → low ≤ k → Ascends low m → Ascends low (insert k v m)
  unfolding insert
  Ascends-insert low k v [] l h = ground arith
  Ascends-insert low k v ((i, w) ∷ m) l h = ground (arith, Ascends-insert (suc i) k v m)

  Ascends-weaken : (low low' : ℕ) (m : BTree V) → low' ≤ low → Ascends low m → Ascends low' m
  Ascends-weaken low low' [] l h = tt
  Ascends-weaken low low' ((i, w) ∷ m) l h = (omega arith, h.1)

  pub Ascends-remove : (low k : ℕ) (m : BTree V) → Ascends low m → Ascends low (remove k m)
  unfolding remove
  Ascends-remove low k [] h = tt
  Ascends-remove low k ((i, w) ∷ m) h =
      ground (arith, Ascends-remove (suc i) k m, Ascends-weaken (suc i) low (remove k m))

  -- A key below all others is not there.
  pub get-below : (low k : ℕ) (m : BTree V) → Ascends low m → k < low → get k m ≡ none
  unfolding get
  get-below low k [] h l = refl
  get-below low k ((i, w) ∷ m) h l = ground (arith, get-below (suc i) k m)

module _ {ℓ} {V : Type ℓ} where
  -- Replacing a value leaves the keys as they are.
  pub keys-insert :
      (low k : ℕ) (v w : V) (m : BTree V)
      → Ascends low m
      → get k m ≡ some w
      → keys (insert k v m) ≡ keys m
  unfolding get insert keys
  keys-insert low k v w [] s h = ground arith
  keys-insert low k v w ((j, u) ∷ m) s h =
      ground (arith, keys-insert (suc j) k v w m s.1, get-below (suc j) k m s.1)

  pub Ascends-keys : (low : ℕ) (m n : BTree V) → keys m ≡ keys n → Ascends low m → Ascends low n
  unfolding keys
  Ascends-keys low [] [] e s = tt
  Ascends-keys low [] (y ∷ n) e s = absurd (ground arith)
  Ascends-keys low (x ∷ m) [] e s = absurd (ground arith)
  Ascends-keys low ((k, v) ∷ m) ((j, w) ∷ n) e s =
      let same : k ≡ j = ground arith in
      (ground arith, Ascends-keys (suc j) m n (ground arith) (rw same at s.1))

  pub length-keys : (m : BTree V) → length (keys m) ≡ length m
  unfolding keys
  length-keys [] = refl
  length-keys ((k, v) ∷ m) = ap suc (length-keys m)

module _ {ℓ} {V : Type ℓ} where
  -- An entry after an insertion is the new one or an old one at another key.
  pub insert-inv :
      (j k : ℕ) (v u : V) (m : BTree V)
      → get k (insert j v m) ≡ some u
      → ((k ≡ j) × (u ≡ v)) ⊎ ((k ≢ j) × (get k m ≡ some u))
  insert-inv j k v u m e = elim (Bool-cases (j == k)) [
    | inl hit ↦ inl (ground (arith, get-insert j k v m), ground (arith, get-insert j k v m))
    | inr miss ↦ inr (ground arith, ground (arith, get-insert j k v m))
  ]

  pub remove-inv :
      (j k : ℕ) (u : V) (m : BTree V) → get k (remove j m) ≡ some u → (k ≢ j) × (get k m ≡ some u)
  remove-inv j k u m e = elim (Bool-cases (j == k)) [
    | inl hit ↦ absurd (ground (arith, get-remove j k m))
    | inr miss ↦ (ground arith, ground (arith, get-remove j k m))
  ]

  pub get-insert_self : (k : ℕ) (v : V) (m : BTree V) → get k (insert k v m) ≡ some v
  get-insert_self k v m = ground (arith, get-insert k k v m)

  pub get-insert_ne : (k j : ℕ) (v : V) (m : BTree V) → j ≢ k → get j (insert k v m) ≡ get j m
  get-insert_ne k j v m h = ground (arith, get-insert k j v m)

  pub get-remove_ne : (k j : ℕ) (m : BTree V) → j ≢ k → get j (remove k m) ≡ get j m
  get-remove_ne k j m h = ground (arith, get-remove k j m)

pub length-insert :
    {V : Type 0} (k : ℕ) (v : V) (m : BTree V) → length (insert k v m) ≤ length m + 1
unfolding insert
length-insert k v [] = omega arith
length-insert k v ((j, w) ∷ m) = ground (arith, length-insert k v m)

pub length-remove : {V : Type 0} (k : ℕ) (m : BTree V) → length (remove k m) ≤ length m
unfolding remove
length-remove k [] = omega arith
length-remove k ((j, w) ∷ m) = ground (arith, length-remove k m)

pub ruleset btree_laws = (get-insert, get-remove)
