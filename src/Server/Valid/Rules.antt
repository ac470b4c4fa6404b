-- ===== src/Server/Valid/Rules.antt =====
-- Rules for the steps of a method: a proof that a method is sound follows its `do` block.
use mathlib.Core.Path.{subst}
use caterm.Prelude.{arith, ◌≡◌, refl, ◌≢◌, Option, none, some, Bool, true, false}
use caterm.Text.{Text}
use caterm.Outcome.{
  Outcome, ok, err, panic, pure, lift, reads, gets, modify, continue, ◌>>=◌, ok_or, guard, and_then,
  expect,
}
use caterm.Server.State.{Server, Handler}
use caterm.Server.Valid.{ServerOk}

-- A method that began in `s` has ended well: it returned in a valid state, or it failed and left the
-- hierarchy as it was; it did not panic.
unfoldable pub Sound : {A : Type 0} → Server → Outcome A × Server → Type 0
Sound s (ok a, s') = ServerOk s'
Sound s (err message, s') = ServerOk s' × (s'.sessions ≡ s.sessions)
Sound s (panic, s') = ⊥

-- The state `now` is valid, and the hierarchy is that of `s`: a failure here is sound.
pub record Untouched (s now : Server) : Type 0 where
  pub valid : ServerOk now
  pub same : now.sessions ≡ s.sessions

abbrev pub Returns : {A : Type 0} → Outcome A → Type 0
Returns (ok a) = Unit
Returns (err message) = ⊥
Returns panic = ⊥

pub Sound-continue :
    {A B : Type 0} (s now : Server) (r : Outcome A) (f : A → Handler B)
    → Untouched s now
    → r ≢ panic
    → ((a : A) → r ≡ ok a → Sound s (f a now))
    → Sound s (continue r f now)
unfolding Sound
Sound-continue s now (ok a) f u calm rest = rest a refl
Sound-continue s now (err message) f u calm rest = (u.valid, u.same)
Sound-continue s now panic f u calm rest = absurd (calm refl)

module _ {A B : Type 0} (s now : Server) where
  pub Sound-reads :
      (g : Server → Outcome A) (f : A → Handler B)
      → Untouched s now
      → g now ≢ panic
      → ((a : A) → g now ≡ ok a → Sound s (f a now))
      → Sound s ((reads g >>= f) now)
  unfolding ◌>>=◌
  Sound-reads g f u calm rest = Sound-continue s now (g now) f u calm rest

  pub Sound-lift :
      (r : Outcome A) (f : A → Handler B)
      → Untouched s now
      → r ≢ panic
      → ((a : A) → r ≡ ok a → Sound s (f a now))
      → Sound s ((lift r >>= f) now)
  unfolding ◌>>=◌
  Sound-lift r f u calm rest = Sound-continue s now r f u calm rest

  pub Sound-gets :
      (g : Server → A) (f : A → Handler B) → Sound s (f (g now) now) → Sound s ((gets g >>= f) now)
  unfolding ◌>>=◌
  Sound-gets g f rest = rest

module _ {B : Type 0} (s now : Server) where
  pub Sound-modify :
      (h : Server → Server) (f : Unit {0} → Handler B)
      → Sound s (f tt (h now))
      → Sound s ((modify h >>= f) now)
  unfolding ◌>>=◌
  Sound-modify h f rest = rest

  -- A step whose failure has not left the hierarchy alone must return.
  Sound-lift-Returns :
      {A : Type 0} (r : Outcome A) (f : A → Handler B)
      → Returns r
      → ((a : A) → r ≡ ok a → Sound s (f a now))
      → Sound s ((lift r >>= f) now)
  unfolding ◌>>=◌
  Sound-lift-Returns (ok a) f returns rest = rest a refl
  Sound-lift-Returns (err message) f returns rest = absurd returns
  Sound-lift-Returns panic f returns rest = absurd returns

-- A step that is known to return.
pub Sound-lift_ok :
    {A B : Type 0} (s now : Server) (r : Outcome A) (f : A → Handler B) (a : A)
    → r ≡ ok a
    → Sound s (f a now)
    → Sound s ((lift r >>= f) now)
unfolding ◌>>=◌
Sound-lift_ok s now (ok b) f a e rest = subst (λ x. Sound s (f x now)) (ground arith) rest
Sound-lift_ok s now (err message) f a e rest = absurd (ground arith)
Sound-lift_ok s now panic f a e rest = absurd (ground arith)

pub ok_or-calm : {A : Type 0} (o : Option A) (message : Text) → ok_or o message ≢ panic
ok_or-calm none message e = cc
ok_or-calm (some a) message e = cc

pub guard-calm : (b : Bool) (message : Text) → guard b message ≢ panic
guard-calm true message e = cc
guard-calm false message e = cc

pub guard-ok : (b : Bool) (message : Text) (a : Unit {0}) → guard b message ≡ ok a → b ≡ true
guard-ok true message a e = refl
guard-ok false message a e = cc

pub and_then-calm :
    {A B : Type 0} (r : Outcome A) (f : A → Outcome B)
    → r ≢ panic
    → ((a : A) → r ≡ ok a → f a ≢ panic)
    → and_then r f ≢ panic
and_then-calm (ok a) f calm rest e = rest a refl e
and_then-calm (err message) f calm rest e = cc
and_then-calm panic f calm rest e = calm refl

-- The last step returns.
Sound-Returns :
    {A : Type 0} (s now : Server) (r : Outcome A) → Returns r → ServerOk now → Sound s (r, now)
unfolding Sound
Sound-Returns s now (ok a) returns valid = valid
Sound-Returns s now (err message) returns valid = absurd returns
Sound-Returns s now panic returns valid = absurd returns

module _ {A : Type 0} (s now : Server) where
  pub Sound-reads_last :
      (g : Server → Outcome A) → ServerOk now → Returns (g now) → Sound s (reads g now)
  unfolding reads
  Sound-reads_last g valid returns = Sound-Returns s now (g now) returns valid

  pub Sound-gets_last : (g : Server → A) → ServerOk now → Sound s (gets g now)
  unfolding gets Sound
  Sound-gets_last g valid = valid

  pub Sound-pure_last : (a : A) → ServerOk now → Sound s (pure a now)
  unfolding pure Sound
  Sound-pure_last a valid = valid

pub Returns-expect :
    {A B : Type 0} (o : Option A) (f : A → Outcome B) (a : A)
    → o ≡ some a
    → Returns (f a)
    → Returns (and_then (expect o) f)
Returns-expect none f a e returns = absurd (ground arith)
Returns-expect (some b) f a e returns = subst (λ x. Returns (f x)) (ground arith) returns
