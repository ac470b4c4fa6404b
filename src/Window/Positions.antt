-- ===== src/Window/Positions.antt =====
-- Places in the list of ids: the pane and its partner stand at different ones.
use caterm.Prelude.{
  ℕ, zero, suc, ◌≤◌, ◌<◌, ◌≡◌, refl, ◌≢◌, inl, inr, true, some, List, [], ◌∷◌, arith, any, length,
  get_elem?, ◌==◌, ap, ◌∙◌, Option-cases,
}
use caterm.Window.{position, partner_index}
use caterm.Window.Order.{Distinct}

pub position-get_elem? :
    (id i : ℕ) (ids : List ℕ) → position id ids ≡ some i → get_elem? ids i ≡ some id
unfolding position
position-get_elem? id i [] e = ground arith
position-get_elem? id zero (k ∷ ids) e = elim (Option-cases (position id ids)) [
  | inl e' ↦ ground arith
  | inr (j, e') ↦ ground arith
]
position-get_elem? id (suc i) (k ∷ ids) e = elim (Option-cases (position id ids)) [
  | inl e' ↦ ground arith
  | inr (j, e') ↦ ground (arith, position-get_elem? id i ids)
]

get_elem?-any :
    (ids : List ℕ) (i id : ℕ) → get_elem? ids i ≡ some id → any (λ k. k == id) ids ≡ true
get_elem?-any [] i id e = ground arith
get_elem?-any (k ∷ ids) zero id e = ground arith
get_elem?-any (k ∷ ids) (suc i) id e = ground (arith, get_elem?-any ids i id)

-- In a list without repetition an element has one place.
get_elem?-injective :
    (ids : List ℕ) (i j id : ℕ)
    → Distinct ids
    → get_elem? ids i ≡ some id
    → get_elem? ids j ≡ some id
    → i ≡ j
get_elem?-injective [] i j id d e f = ground arith
get_elem?-injective (k ∷ ids) zero zero id d e f = refl
get_elem?-injective (k ∷ ids) zero (suc j) id d e f = ground (arith, get_elem?-any ids j id f, d.0)
get_elem?-injective (k ∷ ids) (suc i) zero id d e f = ground (arith, get_elem?-any ids i id e, d.0)
get_elem?-injective (k ∷ ids) (suc i) (suc j) id d e f =
    ap suc (get_elem?-injective ids i j id d.1 e f)

pub get_elem?-lt : (ids : List ℕ) (i id : ℕ) → get_elem? ids i ≡ some id → i < length ids
get_elem?-lt [] i id e = absurd (ground arith)
get_elem?-lt (k ∷ ids) zero id e = omega arith
get_elem?-lt (k ∷ ids) (suc i) id e = omega (arith, get_elem?-lt ids i id e)

-- The partner is another index in range.
partner_index_ne : (i n : ℕ) → i < n → 2 ≤ n → partner_index i n ≢ i
unfolding partner_index
partner_index_ne i n h two = ground arith

pub partner_index-lt : (i n : ℕ) → i < n → partner_index i n < n
unfolding partner_index
partner_index-lt i n h = ground arith

pub partner_ne :
    (ids : List ℕ) (id i partner_id : ℕ)
    → Distinct ids
    → 2 ≤ length ids
    → position id ids ≡ some i
    → get_elem? ids (partner_index i (length ids)) ≡ some partner_id
    → partner_id ≢ id
partner_ne ids id i partner_id d two at there same =
    let here = position-get_elem? id i ids at in
    partner_index_ne i (length ids) (get_elem?-lt ids i id here) two (
      get_elem?-injective ids (partner_index i (length ids)) i id d
        (there ∙ ap (λ (k : ℕ). some k) same) here)
