-- ===== src/Window/Clamp.antt =====
-- The arithmetic of `resize_pane`: the clamped change of two sizes.
use caterm.Prelude.{ℕ, zero, suc, ◌+◌, ◌≤◌, ◌<◌, ◌≡◌, ◌⊎◌, false, arith}
use caterm.Prelude.Int.{ℤ, pos, negsuc, as_i16, as_u16, add_i16, sub_i16}
use caterm.Window.{clamp_delta, is_zero}

-- What the change comes to for sizes that fit: the sum stays, and the pane that shrinks keeps ten.
abbrev pub Moves : ℕ → ℕ → ℕ → ℕ → Type 0
Moves target partner target' partner' =
    (target' + partner' ≡ target + partner)
    × (((target < target') × (10 ≤ partner')) ⊎ ((partner < partner') × (10 ≤ target')))

-- The change is a growth that leaves the partner ten, a shrinking that leaves the target ten, or 0.
abbrev pub Clamped : ℕ → ℕ → ℤ → Type 0
Clamped target partner (pos n) = (n ≡ 0) ⊎ ((0 < n) × (n + 10 ≤ partner))
Clamped target partner (negsuc n) = suc n + 10 ≤ target

grow-Clamped :
    (n target partner : ℕ)
    → partner < 32768
    → is_zero (pos n) ≡ false
    → Clamped target partner (clamp_delta (pos n) target partner)
unfolding clamp_delta
grow-Clamped zero target partner small nonzero = absurd (ground arith)
grow-Clamped (suc n) target partner small nonzero = ground arith

shrink-Clamped :
    (n target partner : ℕ)
    → target < 32768
    → Clamped target partner (clamp_delta (negsuc n) target partner)
unfolding clamp_delta
shrink-Clamped n target partner small = ground arith

pub Clamped-Moves :
    (change : ℤ) (target partner : ℕ)
    → target + partner < 32768
    → is_zero change ≡ false
    → Clamped target partner change
    → Moves target partner
        (as_u16 (add_i16 (as_i16 target) change))
        (as_u16 (sub_i16 (as_i16 partner) change))
Clamped-Moves (pos n) target partner small nonzero h = ground arith
Clamped-Moves (negsuc n) target partner small nonzero h = ground arith

pub clamp_delta-Clamped :
    (delta : ℤ) (target partner : ℕ)
    → target + partner < 32768
    → is_zero delta ≡ false
    → Clamped target partner (clamp_delta delta target partner)
clamp_delta-Clamped (pos n) target partner small nonzero =
    grow-Clamped n target partner (omega arith) nonzero
clamp_delta-Clamped (negsuc n) target partner small nonzero =
    shrink-Clamped n target partner (omega arith)
