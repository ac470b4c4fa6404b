-- ===== src/Server/Directory/Names.antt =====
-- Changes of the server that leave every session its name.
use caterm.Prelude.{
  ℕ, List, [], ◌∷◌, Bool, true, false, none, some, map_opt, ◌==◌, if◌then◌else◌, ◌≡◌, refl, sym, ap,
  ◌∙◌, arith, Option-cases, inl, inr, ==_iff,
}
use mathlib.Core.Path.{subst}
use caterm.Text.{Text}
use caterm.Outcome.{ok, ◌>>=◌}
use caterm.Outcome.Laws.{ok_or-eq-ok}
use caterm.BTree.{BTree, get, insert}
use caterm.Session.{Session}
use caterm.Window.{Window}
use caterm.Pane.{Pane}
use caterm.Pty.{Host, Poll, PtySession}
use caterm.Event.{ServerEvent}
use caterm.Server.State.{Server, session_at, put_session, put_window, session_missing, find_window}
use caterm.Server.Client.{broadcast_events}
use caterm.Server.Runtime.{collect_runtime_events}
use caterm.Server.Runtime.Valid.{collect_runtime_events-SameServer}
use caterm.Server.Valid.Alike.{Alike, SameSession}
use caterm.Server.Create.{spawn_pane}
use caterm.Server.Delete.{end_all, put_pty}
use caterm.Server.Directory.{name_of, name_of-insert}

-- Each session has the name that it had, and the counter of sessions stands where it stood.
pub record SameNames (base now : Server) : Type 0 where
  pub at : (j : ℕ) → name_of now j ≡ name_of base j
  pub counter : now.next_session_id ≡ base.next_session_id

pub SameNames-put_session :
    (base now : Server) (id : ℕ) (old new : Session)
    → SameNames base now
    → session_at now id ≡ ok old
    → new.name ≡ old.name
    → SameNames base (put_session id new now)
unfolding put_session session_at
SameNames-put_session base now id old new same found named = record {
  at = λ j.
      name_of-insert id new now (put_session id new now) refl j ∙ put j (id == j) refl ∙ same.at j;
  counter = same.counter;
}
  where
    here : get id now.sessions ≡ some old
    here = ok_or-eq-ok (get id now.sessions) (session_missing id) found

    put :
        (j : ℕ) (b : Bool)
        → (id == j) ≡ b
        → (if b then some new.name else name_of now j) ≡ name_of now j
    put j true hit =
        subst (λ i. some new.name ≡ name_of now i) ((==_iff id j).0 hit)
          (ap (λ n. some n) named ∙ sym (ap (map_opt (λ (x : Session). x.name)) here))
    put j false miss = refl

put_window-gone :
    (now : Server) (sid wid : ℕ) (window : Window)
    → get sid now.sessions ≡ none
    → put_window sid wid window now ≡ now
unfolding put_window
put_window-gone now sid wid window gone = ground arith

put_window-found :
    (now : Server) (sid wid : ℕ) (window : Window) (session : Session)
    → get sid now.sessions ≡ some session
    → put_window sid wid window now
      ≡ put_session sid (record session { windows = insert wid window session.windows }) now
unfolding put_window
put_window-found now sid wid window session found = ground arith

session_at-found :
    (now : Server) (sid : ℕ) (session : Session)
    → get sid now.sessions ≡ some session
    → session_at now sid ≡ ok session
unfolding session_at
session_at-found now sid session found = rw found refl

pub SameNames-put_window :
    (base now : Server) (sid wid : ℕ) (window : Window)
    → SameNames base now
    → SameNames base (put_window sid wid window now)
SameNames-put_window base now sid wid window same = elim (Option-cases (get sid now.sessions)) [
  | inl gone ↦ subst (SameNames base) (sym (put_window-gone now sid wid window gone)) same
  | inr (session, found) ↦
      subst (SameNames base) (sym (put_window-found now sid wid window session found)) (
        SameNames-put_session base now sid session _ same (session_at-found now sid session found)
          refl)
]

pub SameNames-next_window :
    (base now : Server) (n : ℕ)
    → SameNames base now
    → SameNames base (record now { next_window_id = n })
SameNames-next_window base now n same = record { at = same.at; counter = same.counter }

pub SameNames-end_all :
    (base now : Server) (shells : List PtySession)
    → SameNames base now
    → SameNames base (end_all shells now)
SameNames-end_all base now shells same = record { at = same.at; counter = same.counter }

pub SameNames-broadcast_events :
    (base now : Server) (events : List ServerEvent)
    → SameNames base now
    → SameNames base (broadcast_events events now)
unfolding broadcast_events
SameNames-broadcast_events base now events same = record { at = same.at; counter = same.counter }

put_pty-gone :
    (now : Server) (sid wid pid : ℕ) (pty : PtySession) (pane : Pane)
    → find_window now.sessions sid wid ≡ none
    → put_pty sid wid pid pty pane now ≡ now
unfolding put_pty
put_pty-gone now sid wid pid pty pane gone = ground arith

put_pty-found :
    (now : Server) (sid wid pid : ℕ) (pty : PtySession) (pane : Pane) (window : Window)
    → find_window now.sessions sid wid ≡ some window
    → put_pty sid wid pid pty pane now
      ≡ put_window sid wid
          (record window { panes = insert pid (record pane { pty = pty }) window.panes })
          now
unfolding put_pty
put_pty-found now sid wid pid pty pane window found = ground arith

pub SameNames-put_pty :
    (base now : Server) (sid wid pid : ℕ) (pty : PtySession) (pane : Pane)
    → SameNames base now
    → SameNames base (put_pty sid wid pid pty pane now)
SameNames-put_pty base now sid wid pid pty pane same =
    elim (Option-cases (find_window now.sessions sid wid)) [
      | inl gone ↦ subst (SameNames base) (sym (put_pty-gone now sid wid pid pty pane gone)) same
      | inr (window, found) ↦
          subst (SameNames base) (sym (put_pty-found now sid wid pid pty pane window found))
            (SameNames-put_window base now sid wid _ same)
    ]

pub SameNames-spawn_pane :
    (base now : Server) (host : Host) (name : Text) (index : ℕ)
    → SameNames base now
    → SameNames base (spawn_pane host name index now).1
unfolding spawn_pane ◌>>=◌
SameNames-spawn_pane base now host name index same = record { at = same.at; counter = same.counter }

Alike-name :
    (j : ℕ) (old new : BTree Session)
    → Alike SameSession old new
    → map_opt (λ (x : Session). x.name) (get j new) ≡ map_opt (λ (x : Session). x.name) (get j old)
unfolding get
Alike-name j [] [] alike = refl
Alike-name j [] (y ∷ new) alike = absurd alike
Alike-name j (x ∷ old) [] alike = absurd alike
Alike-name j ((k, a) ∷ old) ((i, b) ∷ new) alike =
    ground (arith, alike.0, alike.1.same_name, Alike-name j old new alike.2)

pub SameNames-collect :
    (base now : Server) (poll : Poll)
    → SameNames base now
    → SameNames base (collect_runtime_events poll now).1
SameNames-collect base now poll same = record {
  at = λ j.
      Alike-name j now.sessions (collect_runtime_events poll now).1.sessions
        (collect_runtime_events-SameServer poll now).sessions
      ∙ same.at j;
  counter = (collect_runtime_events-SameServer poll now).next_sessions ∙ same.counter;
}

pub SameNames-refl : (s : Server) → SameNames s s
SameNames-refl s = record { at = λ j. refl; counter = refl }

pub SameNames-trans : (a b c : Server) → SameNames a b → SameNames b c → SameNames a c
SameNames-trans a b c first next = record {
  at = λ j. next.at j ∙ first.at j;
  counter = next.counter ∙ first.counter;
}
