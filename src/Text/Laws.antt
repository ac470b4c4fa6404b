-- ===== src/Text/Laws.antt =====
-- Laws of equality and byte length of texts.
use caterm.Prelude.{
  ℕ, zero, suc, ◌+◌, ◌-◌, ◌≤◌, ◌<◌, ◌≡◌, refl, ap, ◌∙◌, ◌↔◌, true, some, [], ◌∷◌, ◌++◌, arith, All,
  map_opt, leb, Bool-cases, inl, inr,
}
use caterm.Text.{Text, text_eq, len_utf8, len, drain, slice_to}

pub text_eq_sound : (s t : Text) → text_eq s t ≡ true → s ≡ t
unfolding text_eq
text_eq_sound [] [] h = refl
text_eq_sound [] (d ∷ t) h = ground arith
text_eq_sound (c ∷ s) [] h = ground arith
text_eq_sound (c ∷ s) (d ∷ t) h = ground (arith, text_eq_sound s t)

pub text_eq_refl : (s : Text) → text_eq s s ≡ true
unfolding text_eq
text_eq_refl [] = refl
text_eq_refl (c ∷ s) = ground (arith, text_eq_refl s)

pub text_eq_iff : (s t : Text) → (text_eq s t ≡ true) ↔ (s ≡ t)
text_eq_iff s t = (text_eq_sound s t, λ e. ground (arith, e, text_eq_refl s))

pub len_utf8_bounds : (c : ℕ) → (1 ≤ len_utf8 c) × (len_utf8 c ≤ 4)
unfolding len_utf8
len_utf8_bounds c = ground arith

pub len-append : (s t : Text) → len (s ++ t) ≡ len s + len t
unfolding len
len-append [] t = omega arith
len-append (c ∷ s) t = omega (arith, len-append s t)

-- A successful `drain` takes exactly `n` bytes off the front.
pub len-drain : (n : ℕ) (s t : Text) → drain n s ≡ some t → len t + n ≡ len s
unfolding drain len
len-drain zero s t h = ground arith
len-drain (suc n) [] t h = ground arith
len-drain (suc n) (c ∷ s) t h = ground (arith, len-drain (suc n - len_utf8 c) s t)

-- One character that fits is taken whole.
drain-cons : (n c : ℕ) (s : Text) → len_utf8 c ≤ n → drain n (c ∷ s) ≡ drain (n - len_utf8 c) s
unfolding drain
drain-cons zero c s h = absurd (omega (arith, len_utf8_bounds c))
drain-cons (suc n) c s h = ground arith

-- Draining a whole prefix leaves the rest.
pub drain-append : (s t : Text) → drain (len s) (s ++ t) ≡ some t
unfolding len
drain-append [] t = unfold drain in refl
drain-append (c ∷ s) t =
    drain-cons (len_utf8 c + len s) c (s ++ t) (omega arith)
    ∙ ap (λ (n : ℕ). drain n (s ++ t)) (omega arith)
    ∙ drain-append s t

-- An ASCII text can be cut anywhere.
pub drain_ascii :
    (n : ℕ) (s : Text) → All (λ c. c < 0x80) s → n ≤ len s → (t : Text) × (drain n s ≡ some t)
unfolding drain len len_utf8
drain_ascii zero s h l = (s, refl)
drain_ascii (suc n) [] h l = absurd (omega arith)
drain_ascii (suc n) (c ∷ s) h l =
    let one : len_utf8 c ≡ 1 = ground arith in
    let (t, e) = drain_ascii n s h.1 (ground arith) in (t, ground (arith, e))

slice_to-cons :
    (n c : ℕ) (s : Text)
    → len_utf8 c ≤ n
    → slice_to n (c ∷ s) ≡ map_opt (λ t. c ∷ t) (slice_to (n - len_utf8 c) s)
unfolding slice_to
slice_to-cons zero c s h = absurd (omega (arith, len_utf8_bounds c))
slice_to-cons (suc n) c s h = ground arith

-- Slicing up to the end of a prefix gives the prefix.
pub slice_to-append : (s t : Text) → slice_to (len s) (s ++ t) ≡ some s
unfolding len
slice_to-append [] t = unfold slice_to in refl
slice_to-append (c ∷ s) t =
    slice_to-cons (len_utf8 c + len s) c (s ++ t) (omega arith)
    ∙ ap (λ (n : ℕ). map_opt (λ r. c ∷ r) (slice_to n (s ++ t))) (omega arith)
    ∙ ap (map_opt (λ r. c ∷ r)) (slice_to-append s t)

-- What a `drain` takes off is a prefix of `n` bytes.
pub drain-split :
    (n : ℕ) (s t : Text) → drain n s ≡ some t → (cut : Text) × (s ≡ cut ++ t) × (len cut ≡ n)
unfolding drain len
drain-split zero s t h = ([], ground arith, refl)
drain-split (suc n) [] t h = absurd (ground arith)
drain-split (suc n) (c ∷ s) t h = elim (Bool-cases (leb (len_utf8 c) (suc n))) [
  | inl fits ↦
      let (cut, e, l) = drain-split (suc n - len_utf8 c) s t (ground arith) in
      (c ∷ cut, ap (λ r. c ∷ r) e, ground arith)
  | inr split ↦ absurd (ground arith)
]
