-- ===== src/Prelude/Int.antt =====
-- Signed integers over the native numbers, and the casts between `u16` and `i16`.
use Prim.Native.Nat.{ℕ, suc, ◌+◌, ◌-◌, ◌%◌}
use mathlib.Core.Bool.{Bool}
use caterm.Prelude.Tests.{ltb, leb, if◌then◌else◌}

-- `negsuc n` is -(n + 1).
pub data ℤ : Type 0 where
  pos : ℕ → ℤ
  negsuc : ℕ → ℤ

abbrev pub pos_part : ℤ → ℕ
pos_part (pos n) = n
pos_part (negsuc n) = 0

abbrev pub neg_part : ℤ → ℕ
neg_part (pos n) = 0
neg_part (negsuc n) = suc n

-- a - b, as an integer.
abbrev pub sub_ℕ : ℕ → ℕ → ℤ
sub_ℕ a b = if leb b a then pos (a - b) else negsuc (b - a - 1)

abbrev pub ltb_ℤ : ℤ → ℤ → Bool
ltb_ℤ a b = ltb (pos_part a + neg_part b) (pos_part b + neg_part a)

-- `x as u16` of a signed number
abbrev pub as_u16 : ℤ → ℕ
as_u16 (pos n) = n % 65536
as_u16 (negsuc n) = 65535 - n % 65536

-- `x as i16` of a number
abbrev pub as_i16 : ℕ → ℤ
as_i16 n = let w = n % 65536 in if ltb w 32768 then pos w else negsuc (65535 - w)

-- The operators of `i16`, which wrap around.
abbrev pub add_i16 : ℤ → ℤ → ℤ
add_i16 a b = as_i16 (as_u16 (sub_ℕ (pos_part a + pos_part b) (neg_part a + neg_part b)))

abbrev pub sub_i16 : ℤ → ℤ → ℤ
sub_i16 a b = as_i16 (as_u16 (sub_ℕ (pos_part a + neg_part b) (neg_part a + pos_part b)))

abbrev pub neg_i16 : ℤ → ℤ
neg_i16 a = sub_i16 (pos 0) a

abbrev pub min_ℤ : ℤ → ℤ → ℤ
min_ℤ a b = if ltb_ℤ b a then b else a

abbrev pub max_ℤ : ℤ → ℤ → ℤ
max_ℤ a b = if ltb_ℤ a b then b else a
