-- ===== src/Text.antt =====
-- Rust's `String` as the list of its code points, with the `str` methods that the program calls.
-- Lengths and cut positions count bytes of UTF-8, as in Rust.
pub mod Decimal
pub mod Laws
pub mod Utf8
use Prim.Native.Char.{code}
use Prim.Native.String.{String}
use caterm.Prelude.{
  ℕ, zero, suc, ◌+◌, ◌-◌, Bool, true, false, ◌&&◌, Option, none, some, List, [], ◌∷◌, ◌++◌, ltb,
  leb, ◌==◌, if◌then◌else◌, map_opt,
}

abbrev pub Text : Type 0
Text = List ℕ

-- A text literal.
abbrev pub codes : String → Text
codes String.[] = []
codes (String.◌∷◌ c s) = code c ∷ codes s

-- `a == b` on texts
unfoldable pub text_eq : Text → Text → Bool
text_eq [] [] = true
text_eq [] (d ∷ t) = false
text_eq (c ∷ s) [] = false
text_eq (c ∷ s) (d ∷ t) = c == d && text_eq s t

-- `s.starts_with(p)`, with the pattern first
unfoldable pub starts_with : Text → Text → Bool
starts_with [] s = true
starts_with (c ∷ p) [] = false
starts_with (c ∷ p) (d ∷ s) = c == d && starts_with p s

-- `s.ends_with(p)`: some suffix of `s` is `p`
unfoldable pub ends_with : Text → Text → Bool
unfolding text_eq
ends_with p [] = text_eq p []
ends_with p (d ∷ s) = let rest = ends_with p s in if text_eq p (d ∷ s) then true else rest

-- `s.contains(p)`
unfoldable pub contains : Text → Text → Bool
unfolding starts_with
contains p [] = starts_with p []
contains p (d ∷ s) = let rest = contains p s in if starts_with p (d ∷ s) then true else rest

-- `char::len_utf8`
unfoldable pub len_utf8 : ℕ → ℕ
len_utf8 c = if ltb c 0x80 then 1 else if ltb c 0x800 then 2 else if ltb c 0x10000 then 3 else 4

-- `s.len()`, in bytes
unfoldable pub len : Text → ℕ
len [] = 0
len (c ∷ s) = len_utf8 c + len s

-- `s.drain(..n)`: what is left, or none where Rust panics because `n` is past the end or is no
-- boundary between characters.
unfoldable pub drain : ℕ → Text → Option Text
drain zero s = some s
drain (suc n) [] = none
drain (suc n) (c ∷ s) =
    let rest = drain (suc n - len_utf8 c) s in if leb (len_utf8 c) (suc n) then rest else none

-- `s[..n]`, with the same panics
unfoldable pub slice_to : ℕ → Text → Option Text
slice_to zero s = some []
slice_to (suc n) [] = none
slice_to (suc n) (c ∷ s) =
    let rest = map_opt (λ t. c ∷ t) (slice_to (suc n - len_utf8 c) s) in
    if leb (len_utf8 c) (suc n) then rest else none
