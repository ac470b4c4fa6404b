-- ===== src/Text/Utf8.antt =====
-- `String::from_utf8_lossy`: each maximal piece of an invalid sequence becomes U+FFFD.
use caterm.Prelude.{
  ℕ, zero, suc, ◌+◌, ◌*◌, ◌%◌, Bool, ◌&&◌, List, [], ◌∷◌, ltb, leb, ◌==◌, if◌then◌else◌, length,
}
use caterm.Text.{Text}

abbrev pub replacement : ℕ
replacement = 0xfffd

abbrev in_range : ℕ → ℕ → ℕ → Bool
in_range lo hi b = leb lo b && leb b hi

-- The range of the second byte, which the first one narrows.
second_ok : ℕ → ℕ → Bool
second_ok b c =
    in_range (if b == 0xe0 then 0xa0 else if b == 0xf0 then 0x90 else 0x80)
      (if b == 0xed then 0x9f else if b == 0xf4 then 0x8f else 0xbf) c

-- The last byte of a sequence, after `acc`.
last_byte : ℕ → List ℕ → ℕ × List ℕ
last_byte acc [] = (replacement, [])
last_byte acc (d ∷ bs) =
    if in_range 0x80 0xbf d then (acc * 64 + d % 64, bs) else (replacement, d ∷ bs)

-- The last two bytes of a sequence of four.
last_two : ℕ → List ℕ → ℕ × List ℕ
unfolding last_byte
last_two acc [] = (replacement, [])
last_two acc (d ∷ bs) =
    if in_range 0x80 0xbf d then last_byte (acc * 64 + d % 64) bs else (replacement, d ∷ bs)

after_three : ℕ → List ℕ → ℕ × List ℕ
unfolding last_byte second_ok
after_three b [] = (replacement, [])
after_three b (c ∷ bs) =
    if second_ok b c then last_byte (b % 16 * 64 + c % 64) bs else (replacement, c ∷ bs)

after_four : ℕ → List ℕ → ℕ × List ℕ
unfolding last_two second_ok
after_four b [] = (replacement, [])
after_four b (c ∷ bs) =
    if second_ok b c then last_two (b % 8 * 64 + c % 64) bs else (replacement, c ∷ bs)

-- One character from the front, and the bytes behind it.
next_char : ℕ → List ℕ → ℕ × List ℕ
unfolding last_byte after_three after_four
next_char b bs =
    if ltb b 0x80
    then (b, bs)
    else if in_range 0xc2 0xdf b
    then last_byte (b % 32) bs
    else if in_range 0xe0 0xef b
    then after_three b bs
    else if in_range 0xf0 0xf4 b
    then after_four b bs
    else (replacement, bs)

lossy : ℕ → List ℕ → Text
unfolding next_char
lossy zero bs = []
lossy (suc f) [] = []
lossy (suc f) (b ∷ bs) = let (c, rest) = next_char b bs in c ∷ lossy f rest

-- Each step takes a byte, so as many steps as bytes are enough.
unfoldable pub from_utf8_lossy : List ℕ → Text
unfolding lossy
from_utf8_lossy bs = lossy (length bs) bs
