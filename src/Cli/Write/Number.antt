-- ===== src/Cli/Write/Number.antt =====
-- Changes of size in decimal, and that `str::parse::<i16>` reads them back.
use caterm.Prelude.{
  ℕ, zero, suc, ◌+◌, ◌≤◌, ◌<◌, ◌^◌, Bool, true, false, some, [], ◌∷◌, ◌≡◌, refl, arith, leb, ◌==◌,
  if◌then◌else◌, ◌∙◌, ap,
}
use caterm.Prelude
use caterm.Prelude.Int.{ℤ, pos, negsuc}
use caterm.Text.{Text}
use caterm.Text.Decimal.{digits, to_string, parse_digits}
use caterm.Text.Decimal.RoundTrip.{digits-IsNumeric, parse_digits-digits, IsNumeric}
use caterm.Cli.Parser.{parse_i16, parse_magnitude, fit_i16}

abbrev pub FitsI16 : ℤ → Type 0
FitsI16 (pos n) = n ≤ 32767
FitsI16 (negsuc n) = n ≤ 32767

-- `delta.to_string()`
unfoldable pub i16_text : ℤ → Text
i16_text (pos n) = to_string n
i16_text (negsuc n) = b'-' ∷ to_string (suc n)

parse_magnitude-numeric :
    (negative : Bool) (s : Text)
    → IsNumeric s
    → parse_magnitude negative s ≡ Prelude.and_then (parse_digits 0 s) (fit_i16 negative)
parse_magnitude-numeric negative [] h = absurd h
parse_magnitude-numeric negative (c ∷ s) h = refl

parse_i16-numeric : (s : Text) → IsNumeric s → parse_i16 s ≡ parse_magnitude false s
unfolding parse_i16
parse_i16-numeric [] h = refl
parse_i16-numeric (c ∷ s) h = ground arith

parse_i16-minus : (s : Text) → parse_i16 (b'-' ∷ s) ≡ parse_magnitude true s
unfolding parse_i16
parse_i16-minus s = refl

read_magnitude :
    (negative : Bool) (n : ℕ)
    → n < 2 ^ 64
    → parse_magnitude negative (to_string n) ≡ fit_i16 negative n
unfolding to_string
read_magnitude negative n h =
    parse_magnitude-numeric negative (digits 20 n) (digits-IsNumeric 19 n)
    ∙ ap (λ o. Prelude.and_then o (fit_i16 negative)) (parse_digits-digits 20 n (omega arith) h)

pub parse_i16-i16_text : (d : ℤ) → FitsI16 d → parse_i16 (i16_text d) ≡ some d
unfolding i16_text
parse_i16-i16_text (pos n) h =
    parse_i16-numeric (to_string n) (unfold to_string in digits-IsNumeric 19 n)
    ∙ read_magnitude false n (omega arith)
    ∙ ground arith
parse_i16-i16_text (negsuc n) h =
    parse_i16-minus (to_string (suc n)) ∙ read_magnitude true (suc n) (omega arith) ∙ ground arith
