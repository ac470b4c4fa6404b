-- ===== src/Text/Decimal.antt =====
-- `u64` in decimal: `to_string` and `str::parse::<u64>`.
pub mod RoundTrip
use caterm.Prelude.{
  ℕ, zero, suc, ◌+◌, ◌*◌, ◌-◌, ◌/◌, ◌%◌, ◌^◌, Bool, ◌&&◌, Option, none, some, [], ◌∷◌, ◌++◌, ltb,
  leb, ◌==◌, if◌then◌else◌,
}
use caterm.Text.{Text}

-- The digits of `n`, most significant first; the fuel bounds their number.
unfoldable pub digits : ℕ → ℕ → Text
digits zero n = []
digits (suc f) n =
    let high = digits f (n / 10) in if ltb n 10 then (48 + n) ∷ [] else high ++ (48 + n % 10) ∷ []

-- `n.to_string()`: a `u64` has at most 20 digits.
unfoldable pub to_string : ℕ → Text
unfolding digits
to_string n = digits 20 n

abbrev pub is_digit : ℕ → Bool
is_digit c = leb 48 c && leb c 57

-- One more digit, unless the number no longer fits a `u64`.
unfoldable pub parse_digits : ℕ → Text → Option ℕ
parse_digits acc [] = some acc
parse_digits acc (c ∷ s) =
    let next = acc * 10 + (c - 48) in
    let rest = parse_digits next s in if is_digit c && ltb next (2 ^ 64) then rest else none

-- `s.parse::<u64>().ok()`: one leading plus sign is allowed.
unfoldable pub parse_u64 : Text → Option ℕ
unfolding parse_digits
parse_u64 [] = none
parse_u64 (c ∷ []) = if c == b'+' then none else parse_digits 0 (c ∷ [])
parse_u64 (c ∷ d ∷ s) = if c == b'+' then parse_digits 0 (d ∷ s) else parse_digits 0 (c ∷ d ∷ s)
