-- ===== src/Server/Directory/Rules.antt =====
-- The same for the methods made of them, by one rule for each step.
use caterm.Prelude.{ℕ, List, ◌≡◌, refl}
use caterm.Text.{Text}
use caterm.Outcome.{Outcome, ok, err, panic, continue, reads, modify, lift, gets, pure, ◌>>=◌}
use caterm.Pane.{Pane}
use caterm.Pty.{Host, Poll}
use caterm.Event.{ServerEvent}
use caterm.Server.State.{Server, Handler}
use caterm.Server.Runtime.{collect_runtime_events}
use caterm.Server.Create.{spawn_pane}
use caterm.Server.Directory.Names.{
  SameNames, SameNames-refl, SameNames-put_session, SameNames-put_window, SameNames-next_window,
  SameNames-end_all, SameNames-broadcast_events, SameNames-put_pty, SameNames-spawn_pane,
  SameNames-collect,
}

unfoldable pub Tame : {A : Type 0} → Server → Outcome A × Server → Type 0
Tame base r = SameNames base r.1

module _ {A B : Type 0} (base : Server) where
  Tame-continue :
      (r : Outcome A) (f : A → Handler B) (now : Server)
      → SameNames base now
      → ((a : A) → r ≡ ok a → Tame base (f a now))
      → Tame base (continue r f now)
  unfolding Tame
  Tame-continue (ok a) f now same rest = rest a refl
  Tame-continue (err message) f now same rest = same
  Tame-continue panic f now same rest = same

  pub Tame-reads :
      (g : Server → Outcome A) (f : A → Handler B) (now : Server)
      → SameNames base now
      → ((a : A) → g now ≡ ok a → Tame base (f a now))
      → Tame base ((reads g >>= f) now)
  unfolding ◌>>=◌
  Tame-reads g f now same rest = Tame-continue (g now) f now same rest

  pub Tame-lift :
      (r : Outcome A) (f : A → Handler B) (now : Server)
      → SameNames base now
      → ((a : A) → r ≡ ok a → Tame base (f a now))
      → Tame base ((lift r >>= f) now)
  unfolding ◌>>=◌
  Tame-lift r f now same rest = Tame-continue r f now same rest

  pub Tame-gets :
      (g : Server → A) (f : A → Handler B) (now : Server)
      → Tame base (f (g now) now)
      → Tame base ((gets g >>= f) now)
  unfolding ◌>>=◌
  Tame-gets g f now rest = rest

module _ {A : Type 0} (base : Server) where
  pub Tame-modify :
      (h : Server → Server) (f : Unit {0} → Handler A) (now : Server)
      → Tame base (f tt (h now))
      → Tame base ((modify h >>= f) now)
  unfolding ◌>>=◌
  Tame-modify h f now rest = rest

  pub Tame-last :
      (g : Server → Outcome A) (now : Server) → SameNames base now → Tame base (reads g now)
  unfolding ◌>>=◌ Tame
  Tame-last g now same = same

  pub Tame-pure : (a : A) (now : Server) → SameNames base now → Tame base (pure a now)
  unfolding ◌>>=◌ Tame
  Tame-pure a now same = same

  pub Tame-gets_last : (g : Server → A) (now : Server) → SameNames base now → Tame base (gets g now)
  unfolding ◌>>=◌ Tame
  Tame-gets_last g now same = same

module _ {A : Type 0} (base : Server) where
  pub Tame-then :
      {B : Type 0} (m : Handler B) (f : B → Handler A) (now : Server)
      → SameNames base (m now).1
      → ((b : B) → Tame base (f b (m now).1))
      → Tame base ((m >>= f) now)
  unfolding ◌>>=◌
  Tame-then m f now same rest = Tame-continue base (m now).0 f (m now).1 same (λ b e. rest b)

  pub Tame-collect :
      (poll : Poll) (f : List ServerEvent → Handler A) (now : Server)
      → SameNames base now
      → ((events : List ServerEvent) (next : Server)
          → SameNames base next
          → Tame base (f events next))
      → Tame base ((collect_runtime_events poll >>= f) now)
  Tame-collect poll f now same rest =
      let next = SameNames-collect base now poll same in
      Tame-then (collect_runtime_events poll) f now next (λ events. rest events _ next)

  pub Tame-spawn_pane :
      (host : Host) (name : Text) (index : ℕ) (f : Pane → Handler A) (now : Server)
      → SameNames base now
      → ((pane : Pane) (next : Server) → SameNames base next → Tame base (f pane next))
      → Tame base ((spawn_pane host name index >>= f) now)
  Tame-spawn_pane host name index f now same rest =
      let next = SameNames-spawn_pane base now host name index same in
      Tame-then (spawn_pane host name index) f now next (λ pane. rest pane _ next)

pub ruleset tame_rules = (
  SameNames-refl, Tame-reads, Tame-lift, Tame-gets, Tame-modify, Tame-last, Tame-gets_last,
  Tame-pure, SameNames-put_session, SameNames-put_window, SameNames-next_window, SameNames-end_all,
  SameNames-broadcast_events, SameNames-put_pty, Tame-collect, Tame-spawn_pane,
)
