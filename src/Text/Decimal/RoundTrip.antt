-- ===== src/Text/Decimal/RoundTrip.antt =====
-- Reading back what was written.
use caterm.Prelude.{
  All, All-append, ℕ, zero, suc, ◌+◌, ◌*◌, ◌-◌, ◌/◌, ◌^◌, ◌≤◌, ◌<◌, ◌≡◌, refl, ◌∙◌, some, [], ◌∷◌,
  ◌++◌, arith, ltb, and_then, Bool-cases, inl, inr,
}
use caterm.Text.{Text}
use caterm.Text.Decimal.{digits, to_string, parse_digits, parse_u64}

abbrev pub pow10 : ℕ → ℕ
pow10 zero = 1
pow10 (suc f) = 10 * pow10 f

-- The text begins with a digit.
abbrev pub IsNumeric : Text → Type 0
IsNumeric [] = ⊥
IsNumeric (c ∷ s) = (48 ≤ c) × (c ≤ 57)

IsNumeric-append : (s t : Text) → IsNumeric s → IsNumeric (s ++ t)
IsNumeric-append [] t h = absurd h
IsNumeric-append (c ∷ s) t h = h

pub digits-IsNumeric : (f n : ℕ) → IsNumeric (digits (suc f) n)
unfolding digits
digits-IsNumeric zero n = ground arith
digits-IsNumeric (suc f) n = elim (Bool-cases (ltb n 10)) [
  | inl small ↦ rw small (ground arith)
  | inr large ↦
      rw large (IsNumeric-append (digits (suc f) (n / 10)) _ (digits-IsNumeric f (n / 10)))
]

abbrev pub IsDigit : ℕ → Type 0
IsDigit c = (48 ≤ c) × (c ≤ 57)

pub digits-All : (f n : ℕ) → All IsDigit (digits f n)
unfolding digits
digits-All zero n = tt
digits-All (suc f) n = elim (Bool-cases (ltb n 10)) [
  | inl small ↦ rw small ((omega arith, ground arith), tt)
  | inr large ↦ rw large (
      All-append IsDigit (digits f (n / 10)) _ (digits-All f (n / 10))
        ((omega arith, omega arith), tt))
]

parse_digits-append :
    (acc : ℕ) (s t : Text)
    → parse_digits acc (s ++ t) ≡ and_then (parse_digits acc s) (λ a. parse_digits a t)
unfolding parse_digits
parse_digits-append acc [] t = refl
parse_digits-append acc (c ∷ s) t = ground (arith, parse_digits-append (acc * 10 + (c - 48)) s t)

pub parse_digits-digits :
    (f n : ℕ) → n < pow10 f → n < 2 ^ 64 → parse_digits 0 (digits f n) ≡ some n
unfolding digits
parse_digits-digits zero n h l = unfold parse_digits in ground arith
parse_digits-digits (suc f) n h l = elim (Bool-cases (ltb n 10)) [
  | inl small ↦ rw small (unfold parse_digits in ground arith)
  | inr large ↦
      rw (large, parse_digits-append, parse_digits-digits f (n / 10) (ground arith) (omega arith))
        (unfold parse_digits in ground arith)
]

parse_u64-numeric : (s : Text) → IsNumeric s → parse_u64 s ≡ parse_digits 0 s
unfolding parse_u64
parse_u64-numeric [] h = absurd h
parse_u64-numeric (c ∷ []) h = ground arith
parse_u64-numeric (c ∷ d ∷ s) h = ground arith

-- Every `u64` that is written in decimal is read back.
pub parse-to_string : (n : ℕ) → n < 2 ^ 64 → parse_u64 (to_string n) ≡ some n
unfolding to_string
parse-to_string n h =
    parse_u64-numeric (digits 20 n) (digits-IsNumeric 19 n)
    ∙ parse_digits-digits 20 n (omega arith) h
