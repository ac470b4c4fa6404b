-- ===== src/Server/Directory/Ids.antt =====
-- The ids of sessions are given out once in the life of a daemon.
use caterm.Prelude.{
  if◌then◌else◌, ◌==◌, ==_iff, Bool-cases, map_opt, sym, ℕ, ◌<◌, ◌≤◌, Option, none, ◌≡◌, refl, ap,
  ◌∙◌, arith, inl, inr,
}
use caterm.Text.{Text}
use caterm.Outcome.{Outcome, ok, err, panic, ◌>>=◌}
use caterm.Pty.{Host}
use caterm.Request.{SessionRequest}
use caterm.Server.State.{Server, CommandOutcome, put_session, session_at, next_id}
use caterm.Server.Valid.{ServerOk, HasRoom}
use caterm.Server.Create.{create_session, spawn_pane}
use caterm.Server.Select.{rename_session}
use caterm.Server.Delete.{delete_session}
use caterm.Server.Dispatch.{perform}
use caterm.Server.Dispatch.Sound.{perform-Sound, FailsFirst}
use caterm.Server.Valid.Rules.{Sound}
use caterm.Server.Directory.{
  name_of, Change, create, rename, delete, request_of, Chosen, new_name, perform-Chosen,
}
use caterm.Session.{Session}
use caterm.BTree.{get}
use mathlib.Core.Path.{subst}
use caterm.Server.Directory.Rules.{Tame}
use caterm.Server.Directory.Kept.{perform-SameNames}
use caterm.Server.Directory.Names.{SameNames}

-- What was free below the counter is still free.
pub record Later (base now : Server) : Type 0 where
  pub counter : base.next_session_id ≤ now.next_session_id
  pub free : (j : ℕ) → j < base.next_session_id → name_of base j ≡ none → name_of now j ≡ none

pub Later-same : (base now : Server) → SameNames base now → Later base now
Later-same base now same = record {
  counter = omega (arith, same.counter);
  free = λ j below gone. same.at j ∙ gone;
}

pub Later-trans : (a b c : Server) → Later a b → Later b c → Later a c
Later-trans a b c first next = record {
  counter = omega (arith, first.counter, next.counter);
  free =
      λ j below gone. next.free j (omega (arith, below, first.counter)) (first.free j below gone);
}

create-counter :
    (host : Host) (name : Option Text) (s : Server)
    → (create_session host name s).1.next_session_id ≡ next_id s.next_session_id
unfolding create_session spawn_pane put_session ◌>>=◌
create-counter host name s = ground arith

rename-counter :
    (target name : Text) (s : Server)
    → (rename_session target name s).1.next_session_id ≡ s.next_session_id
unfolding rename_session session_at put_session ◌>>=◌
rename-counter target name s = ground arith

delete-counter :
    (host : Host) (target : Text) (s : Server)
    → (delete_session host target s).1.next_session_id ≡ s.next_session_id
unfolding delete_session session_at ◌>>=◌
delete-counter host target s = ground arith

counter-Change :
    (host : Host) (change : Change) (s : Server)
    → HasRoom s
    → s.next_session_id ≤ (perform host (request_of change) s).1.next_session_id
unfolding perform
counter-Change host (create name) s room =
    rw (create-counter host name s) (omega (arith, room.sessions))
counter-Change host (rename target name) s room = omega (arith, rename-counter target name s)
counter-Change host (delete target) s room = omega (arith, delete-counter host target s)

Chosen-free :
    (change : Change) (s : Server) (id j : ℕ)
    → Chosen change s id
    → j < s.next_session_id
    → name_of s j ≡ none
    → (if id == j then new_name change s else name_of s j) ≡ none
Chosen-free (create name) s id j chosen below gone = elim (Bool-cases (id == j)) [
  | inl hit ↦ absurd (omega (arith, below, chosen.0, (==_iff id j).0 hit))
  | inr miss ↦ rw miss gone
]
Chosen-free (rename target name) s id j chosen below gone = elim (Bool-cases (id == j)) [
  | inl hit ↦ absurd (chosen.1 (subst (λ i. name_of s i ≡ none) (sym ((==_iff id j).0 hit)) gone))
  | inr miss ↦ rw miss gone
]
Chosen-free (delete target) s id j chosen below gone = elim (Bool-cases (id == j)) [
  | inl hit ↦ rw hit refl
  | inr miss ↦ rw miss gone
]

change-FailsFirst : (change : Change) → FailsFirst (request_of change)
change-FailsFirst (create name) = tt
change-FailsFirst (rename target name) = tt
change-FailsFirst (delete target) = tt

module _ (host : Host) (change : Change) (s : Server) (valid : ServerOk s) (room : HasRoom s) where
  outcome-free :
      (r : Outcome CommandOutcome × Server)
      → perform host (request_of change) s ≡ r
      → Sound s r
      → (j : ℕ) → j < s.next_session_id
      → name_of s j ≡ none
      → name_of r.1 j ≡ none
  unfolding Sound
  outcome-free (ok o, s') e sound j below gone =
      let (id, chosen, named) = perform-Chosen host change s s' o valid e in
      named j ∙ Chosen-free change s id j chosen below gone
  outcome-free (err message, s') e sound j below gone =
      ap (λ m. map_opt (λ (x : Session). x.name) (get j m)) sound.1 ∙ gone
  outcome-free (panic, s') e sound j below gone = absurd sound

  change-Later : Later s (perform host (request_of change) s).1
  change-Later = record {
    counter = counter-Change host change s room;
    free =
        outcome-free (perform host (request_of change) s) refl
          (perform-Sound host (request_of change) s (change-FailsFirst change) valid room);
  }

pub perform-Later :
    (host : Host) (request : SessionRequest) (s : Server)
    → ServerOk s
    → HasRoom s
    → Later s (perform host request s).1
unfolding Tame
perform-Later host (SessionRequest.create_session name) s valid room =
    change-Later host (create name) s valid room
perform-Later host (SessionRequest.rename_session target name) s valid room =
    change-Later host (rename target name) s valid room
perform-Later host (SessionRequest.delete_session target) s valid room =
    change-Later host (delete target) s valid room
perform-Later host request s valid room = Later-same s _ (perform-SameNames host request s refl)
