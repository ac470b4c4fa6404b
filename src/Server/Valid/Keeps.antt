-- ===== src/Server/Valid/Keeps.antt =====
-- Rules for methods that may change the hierarchy before they fail.
use caterm.Prelude.{◌≡◌, refl, ◌≢◌}
use caterm.Outcome.{Outcome, ok, err, panic, lift, reads, gets, modify, continue, ◌>>=◌}
use caterm.Server.State.{Server, Handler}
use caterm.Server.Valid.{ServerOk}
use caterm.Server.Valid.Rules.{Sound}

-- A method has ended in a valid state, by a result or an error, and has not panicked.
unfoldable pub Keeps : {A : Type 0} → Outcome A × Server → Type 0
Keeps (ok a, s') = ServerOk s'
Keeps (err message, s') = ServerOk s'
Keeps (panic, s') = ⊥

pub Sound-Keeps : {A : Type 0} (s : Server) (r : Outcome A × Server) → Sound s r → Keeps r
unfolding Keeps Sound
Sound-Keeps s (ok a, s') sound = sound
Sound-Keeps s (err message, s') sound = sound.0
Sound-Keeps s (panic, s') sound = sound

Keeps-continue :
    {A B : Type 0} (now : Server) (r : Outcome A) (f : A → Handler B)
    → ServerOk now
    → r ≢ panic
    → ((a : A) → r ≡ ok a → Keeps (f a now))
    → Keeps (continue r f now)
unfolding Keeps
Keeps-continue now (ok a) f valid calm rest = rest a refl
Keeps-continue now (err message) f valid calm rest = valid
Keeps-continue now panic f valid calm rest = absurd (calm refl)

module _ {A B : Type 0} (now : Server) where
  pub Keeps-reads :
      (g : Server → Outcome A) (f : A → Handler B)
      → ServerOk now
      → g now ≢ panic
      → ((a : A) → g now ≡ ok a → Keeps (f a now))
      → Keeps ((reads g >>= f) now)
  unfolding ◌>>=◌
  Keeps-reads g f valid calm rest = Keeps-continue now (g now) f valid calm rest

  pub Keeps-lift :
      (r : Outcome A) (f : A → Handler B)
      → ServerOk now
      → r ≢ panic
      → ((a : A) → r ≡ ok a → Keeps (f a now))
      → Keeps ((lift r >>= f) now)
  unfolding ◌>>=◌
  Keeps-lift r f valid calm rest = Keeps-continue now r f valid calm rest

  pub Keeps-lift_ok :
      (r : Outcome A) (f : A → Handler B) (a : A)
      → r ≡ ok a
      → Keeps (f a now)
      → Keeps ((lift r >>= f) now)
  unfolding ◌>>=◌
  Keeps-lift_ok r f a e rest = rw e rest

module _ {B : Type 0} (now : Server) where
  pub Keeps-modify :
      (h : Server → Server) (f : Unit {0} → Handler B)
      → Keeps (f tt (h now))
      → Keeps ((modify h >>= f) now)
  unfolding ◌>>=◌
  Keeps-modify h f rest = rest

  pub Keeps-gets_last : (g : Server → B) → ServerOk now → Keeps (gets g now)
  unfolding gets Keeps
  Keeps-gets_last g valid = valid
