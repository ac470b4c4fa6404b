-- ===== src/Outcome/Laws.antt =====
-- Inversion of successful chains.
use caterm.Prelude.{◌≡◌, refl, ◌⊎◌, inl, inr, Option, none, some}
use caterm.Text.{Text}
use caterm.Outcome.{Outcome, ok, err, panic, and_then, ok_or, expect}

pub and_then-eq-ok {ℓ κ} :
    {A : Type ℓ} {B : Type κ} (r : Outcome A) (f : A → Outcome B) {b : B}
    → and_then r f ≡ ok b
    → (a : A) × (r ≡ ok a) × (f a ≡ ok b)
and_then-eq-ok (ok a) f h = (a, refl, h)
and_then-eq-ok (err e) f h = cc
and_then-eq-ok panic f h = cc

expect-eq-ok {ℓ} : {A : Type ℓ} (o : Option A) {a : A} → expect o ≡ ok a → o ≡ some a
expect-eq-ok none h = cc
expect-eq-ok (some a) h = cc

pub ok_or-eq-ok {ℓ} :
    {A : Type ℓ} (o : Option A) (message : Text) {a : A} → ok_or o message ≡ ok a → o ≡ some a
ok_or-eq-ok none message h = cc
ok_or-eq-ok (some a) message h = cc

-- A call returns, or what stands around it does not.
pub Outcome-cases {ℓ} :
    {A : Type ℓ} (r : Outcome A) → ((a : A) × (r ≡ ok a)) ⊎ ((e : Text) × (r ≡ err e)) ⊎ (r ≡ panic)
Outcome-cases (ok a) = inl (a, refl)
Outcome-cases (err e) = inr (inl (e, refl))
Outcome-cases panic = inr (inr refl)
