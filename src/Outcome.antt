-- ===== src/Outcome.antt =====
-- What a fallible call comes to, and the monad of the server's methods: `&mut self` is a state that
-- keeps what was written before an error. A panic ends the daemon.
pub mod Laws
use caterm.Prelude.{Bool, true, false, Option, none, some}
use caterm.Text.{Text}

-- `anyhow::Result` with the error's message, or a panic.
pub data Outcome {ℓ} (A : Type ℓ) : Type ℓ where
  ok : A → Outcome A
  err : Text → Outcome A
  panic : Outcome A

-- What a call into the system answers.
pub data Answer (A : Type 0) : Type 0 where
  done : A → Answer A
  failed : Text → Answer A

abbrev pub from_answer : {A : Type 0} → Answer A → Outcome A
from_answer (done a) = ok a
from_answer (failed message) = err message

abbrev pub ok_or {ℓ} : {A : Type ℓ} → Option A → Text → Outcome A
ok_or none message = err message
ok_or (some a) message = ok a

-- `Option::expect`, indexing and division: a panic on the missing value.
abbrev pub expect {ℓ} : {A : Type ℓ} → Option A → Outcome A
expect none = panic
expect (some a) = ok a

abbrev pub guard : Bool → Text → Outcome (Unit {0})
guard true message = ok tt
guard false message = err message

-- A chain of pure fallible calls.
abbrev pub and_then {ℓ κ} : {A : Type ℓ} {B : Type κ} → Outcome A → (A → Outcome B) → Outcome B
and_then (ok a) f = f a
and_then (err e) f = err e
and_then panic f = panic

abbrev pub Method : Type 0 → Type 0 → Type 0
Method S A = S → Outcome A × S

module _ {S A : Type 0} where
  unfoldable pub pure : A → Method S A
  pure a s = (ok a, s)

  unfoldable pub lift : Outcome A → Method S A
  lift r s = (r, s)

  -- A call that reads the state and may fail.
  unfoldable pub reads : (S → Outcome A) → Method S A
  reads f s = (f s, s)

  unfoldable pub gets : (S → A) → Method S A
  gets f s = (ok (f s), s)

module _ {S : Type 0} where
  unfoldable pub modify : (S → S) → Method S (Unit {0})
  modify f s = (ok tt, f s)

module _ {S A B : Type 0} where
  abbrev pub continue : Outcome A → (A → Method S B) → Method S B
  continue (ok a) f s = f a s
  continue (err e) f s = (err e, s)
  continue panic f s = (panic, s)

  infixl 5 ◌>>=◌ ◌>>◌
  -- Opening this opens the steps above too.
  unfoldable pub ◌>>=◌ : Method S A → (A → Method S B) → Method S B
  unfolding pure lift reads gets modify
  ◌>>=◌ m f s = let (r, s') = m s in continue r f s'

  abbrev pub ◌>>◌ : Method S A → Method S B → Method S B
  m >> n = m >>= λ _. n
