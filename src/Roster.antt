-- ===== src/Roster.antt =====
-- What the panes of a window, the windows of a session and the sessions of the server have in
-- common: a map whose keys are the ids of its entries, below the next id to give out, with names
-- that differ, and one of the entries marked as active.
use mathlib.Core.Path.{subst}
use caterm.Prelude.{
  ℕ, ◌≤◌, ◌<◌, ◌≡◌, refl, ◌≢◌, inl, inr, false, not, ◌&&◌, Option, some, [], arith, ap, sym, ◌∙◌,
  any, Bool-cases, ◌==◌,
}
use caterm.Text.{Text, text_eq}
use caterm.Text.Laws.{text_eq_iff}
use caterm.BTree.{BTree, get, insert, remove, values, Ascends}
use caterm.BTree.Laws.{
  get-insert, get-insert_self, Ascends-insert, Ascends-remove, insert-inv, remove-inv,
}
use caterm.BTree.Search.{any-get}

-- The marked entry is there.
abbrev pub Active : {V : Type 0} → Option ℕ → BTree V → Type 0
Active {V} active m = (k : ℕ) × (v : V) × (active ≡ some k) × (get k m ≡ some v)

module _ {V : Type 0} (id : V → ℕ) (name : V → Text) where
  pub record Roster (Q : V → Type 0) (next : ℕ) (m : BTree V) : Type 0 where
    pub sorted : Ascends 0 m
    pub ids : (k : ℕ) (v : V) → get k m ≡ some v → (id v ≡ k) × (k < next) × Q v
    pub names : (i j : ℕ) (a b : V) → get i m ≡ some a → get j m ≡ some b → name a ≡ name b → i ≡ j

  pub Roster-empty : (Q : V → Type 0) (next : ℕ) → Roster Q next []
  unfolding get
  Roster-empty Q next = record {
    sorted = tt;
    ids = λ k v e. absurd (nothing k v e);
    names = λ i j a b ea eb same. absurd (nothing i a ea);
  }
    where
      nothing : (k : ℕ) (v : V) → get k [] ≡ some v → ⊥
      nothing k v e = ground arith

  pub Roster-weaken :
      (Q R : V → Type 0) (next next' : ℕ) (m : BTree V)
      → ((v : V) → Q v → R v)
      → next ≤ next'
      → Roster Q next m
      → Roster R next' m
  Roster-weaken Q R next next' m f le r = record {
    sorted = r.sorted;
    ids = λ k v e. let (same, below, q) = r.ids k v e in (same, omega arith, f v q);
    names = r.names;
  }

  -- An entry whose key and name are its own may be put in: at a new key, or in the place of one.
  Roster-put :
      (Q : V → Type 0) (next next' k : ℕ) (v : V) (m : BTree V)
      → Roster Q next m
      → next ≤ next'
      → id v ≡ k
      → k < next'
      → Q v
      → ((j : ℕ) (u : V) → get j m ≡ some u → j ≢ k → name u ≢ name v)
      → Roster Q next' (insert k v m)
  Roster-put Q next next' k v m r le own below q free = record {
    sorted = Ascends-insert 0 k v m (omega arith) r.sorted;
    ids = λ j u e. elim (insert-inv k j v u m e) [
      | inl (at, same) ↦ (ap id same ∙ own ∙ sym at, omega arith, subst Q (sym same) q)
      | inr (ne, old) ↦ let (same, lt, qu) = r.ids j u old in (same, omega arith, qu)
    ];
    names = λ i j a b ea eb same. elim (insert-inv k i v a m ea) [
      | inl (at, new) ↦ elim (insert-inv k j v b m eb) [
        | inl (at', new') ↦ at ∙ sym at'
        | inr (ne, old) ↦ absurd (free j b old ne (sym same ∙ ap name new))
      ]
      | inr (ne, old) ↦ elim (insert-inv k j v b m eb) [
        | inl (at', new') ↦ absurd (free i a old ne (same ∙ ap name new'))
        | inr (ne', old') ↦ r.names i j a b old old' same
      ]
    ];
  }

  -- The test for a name in use, negated, says that no entry has it.
  free_name :
      (text : Text) (m : BTree V)
      → any (λ u. text_eq (name u) text) (values m) ≡ false
      → (j : ℕ) (u : V) → get j m ≡ some u
      → name u ≢ text
  free_name text m free j u e same =
      ground (
        arith,
        any-get (λ w. text_eq (name w) text) j m u free e,
        (text_eq_iff (name u) text).1 same,
      )

  free_other_name :
      (Q : V → Type 0) (next k : ℕ) (text : Text) (m : BTree V)
      → Roster Q next m
      → any (λ u. not (id u == k) && text_eq (name u) text) (values m) ≡ false
      → (j : ℕ) (u : V) → get j m ≡ some u
      → j ≢ k
      → name u ≢ text
  free_other_name Q next k text m r free j u e ne same = ground (
    arith,
    any-get (λ w. not (id w == k) && text_eq (name w) text) j m u free e,
    (text_eq_iff (name u) text).1 same,
    (r.ids j u e).0,
  )

  -- A new entry at the next id.
  pub Roster-insert :
      (Q : V → Type 0) (next next' k : ℕ) (v : V) (m : BTree V)
      → Roster Q next m
      → next ≤ k
      → id v ≡ k
      → k < next'
      → Q v
      → any (λ u. text_eq (name u) (name v)) (values m) ≡ false
      → Roster Q next' (insert k v m)
  Roster-insert Q next next' k v m r fresh own below q free =
      Roster-put Q next next' k v m r (omega arith) own below q
        (λ j u e ne. free_name (name v) m free j u e)

  -- A changed entry with the old name.
  pub Roster-replace :
      (Q : V → Type 0) (next k : ℕ) (v u : V) (m : BTree V)
      → Roster Q next m
      → get k m ≡ some u
      → id v ≡ k
      → name v ≡ name u
      → Q v
      → Roster Q next (insert k v m)
  Roster-replace Q next k v u m r found own same q =
      Roster-put Q next next k v m r (omega arith) own (r.ids k u found).1 q
        (λ j w e ne clash. ne (r.names j k w u e found (clash ∙ same)))

  -- A changed entry with a name that no other entry has.
  pub Roster-rename :
      (Q : V → Type 0) (next k : ℕ) (v u : V) (m : BTree V)
      → Roster Q next m
      → get k m ≡ some u
      → id v ≡ k
      → Q v
      → any (λ w. not (id w == k) && text_eq (name w) (name v)) (values m) ≡ false
      → Roster Q next (insert k v m)
  Roster-rename Q next k v u m r found own q free =
      Roster-put Q next next k v m r (omega arith) own (r.ids k u found).1 q
        (free_other_name Q next k (name v) m r free)

  pub Roster-remove :
      (Q : V → Type 0) (next k : ℕ) (m : BTree V) → Roster Q next m → Roster Q next (remove k m)
  Roster-remove Q next k m r = record {
    sorted = Ascends-remove 0 k m r.sorted;
    ids = λ j v e. r.ids j v (remove-inv k j v m e).1;
    names = λ i j a b ea eb same.
        r.names i j a b (remove-inv k i a m ea).1 (remove-inv k j b m eb).1 same;
  }

  -- Entries that keep their ids and names may change otherwise.
  abbrev pub Similar : BTree V → BTree V → Type 0
  Similar m m' =
      (k : ℕ) (v' : V)
      → get k m' ≡ some v'
      → (v : V) × (get k m ≡ some v) × (id v' ≡ id v) × (name v' ≡ name v)

  pub Roster-Similar :
      (Q R : V → Type 0) (next : ℕ) (m m' : BTree V)
      → Roster Q next m
      → Ascends 0 m'
      → Similar m m'
      → ((v : V) → R v)
      → Roster R next m'
  Roster-Similar Q R next m m' r sorted similar q = record {
    sorted = sorted;
    ids = λ k v' e.
        let (v, found, own, same) = similar k v' e in
        let (at, below, _) = r.ids k v found in (own ∙ at, below, q v');
    names = λ i j a' b' ea eb same.
        let (a, fa, ia, na) = similar i a' ea in
        let (b, fb, ib, nb) = similar j b' eb in r.names i j a b fa fb (sym na ∙ same ∙ nb);
  }

module _ {V : Type 0} where
  pub Active-insert :
      (active : Option ℕ) (k : ℕ) (v : V) (m : BTree V)
      → Active active m
      → Active active (insert k v m)
  Active-insert active k v m (j, u, mark, found) = elim (Bool-cases (k == j)) [
    | inl hit ↦ (j, v, mark, ground (arith, get-insert k j v m))
    | inr miss ↦ (j, u, mark, ground (arith, get-insert k j v m))
  ]

  pub Active-self : (k : ℕ) (v : V) (m : BTree V) → Active (some k) (insert k v m)
  Active-self k v m = (k, v, refl, get-insert_self k v m)
