-- ===== src/Server/Directory.antt =====
-- The names of the sessions by their ids: what the requests on sessions promise.
pub mod Names
pub mod Rules
pub mod Kept
pub mod Ids
pub mod Runs
use caterm.Prelude.{
  ℕ, false, Option, none, some, map_opt, unwrap_or, any, ◌==◌, if◌then◌else◌, ◌≡◌, ◌≢◌, refl, ap,
  ◌∙◌, arith, Option-cases, inl, inr,
}
use caterm.Text.{Text, codes}
use caterm.Outcome.{ok, ◌>>=◌}
use caterm.Outcome.Laws.{Outcome-cases}
use caterm.BTree.{get, insert, remove, values}
use caterm.BTree.Laws.{get-insert, get-remove}
use caterm.Pty.{Host}
use caterm.Session.{Session}
use caterm.Server.State.{Server, CommandOutcome, session_at, put_session}
use caterm.Request.{SessionRequest}
use caterm.Server.Dispatch.{perform}
use caterm.Server.Valid.{ServerOk}
use caterm.Server.Resolve.{resolve_session_id}
use caterm.Server.Select.{rename_session}
use caterm.Server.Delete.{delete_session}
use caterm.Server.Create.{
  create_session, numbered, named_session, spawn_pane, open_pane, session_of, window_of,
}

-- The name of the session with an id.
abbrev pub name_of : Server → ℕ → Option Text
name_of s j = map_opt (λ (x : Session). x.name) (get j s.sessions)

rename_lem :
    (target name : Text) (s s' : Server) (o : CommandOutcome)
    → rename_session target name s ≡ (ok o, s')
    → (id : ℕ) × (session : Session) × (resolve_session_id s target ≡ ok id)
      × (get id s.sessions ≡ some session)
      × (s' ≡ put_session id (record session { name = name }) s)
unfolding rename_session session_at ◌>>=◌
rename_lem target name s s' o e = ground arith

delete_lem :
    (host : Host) (target : Text) (s s' : Server) (o : CommandOutcome)
    → delete_session host target s ≡ (ok o, s')
    → (id : ℕ) × (session : Session) × (resolve_session_id s target ≡ ok id)
      × (get id s.sessions ≡ some session)
      × (s'.sessions ≡ remove id s.sessions)
unfolding delete_session session_at ◌>>=◌
delete_lem host target s s' o e = ground arith

create_lem :
    (host : Host) (name : Option Text) (s s' : Server) (o : CommandOutcome)
    → create_session host name s ≡ (ok o, s')
    → (session : Session) × (session.name
        ≡ unwrap_or name (numbered (codes "session-") s.next_session_id))
      × (any (named_session session.name) (values s.sessions) ≡ false)
      × (s'.sessions ≡ insert s.next_session_id session s.sessions)
unfolding create_session spawn_pane put_session ◌>>=◌
create_lem host name s s' o e =
    elim (Outcome-cases
      (open_pane host s.config s.next_pane_id (numbered (codes "pane-") s.next_pane_id) 0)) [
        | inl (pane, opened) ↦ (
          session_of s.next_session_id
              (unwrap_or name (numbered (codes "session-") s.next_session_id))
              (window_of s.next_window_id 0 (numbered (codes "window-") 0) pane),
          refl,
          ground (arith, opened),
          ground (arith, opened),
        )
        | inr (inl (message, refused)) ↦ absurd (ground (arith, refused))
        | inr (inr broken) ↦ absurd (ground (arith, broken))
      ]

-- The requests that change which sessions there are and what they are called.
pub data Change : Type 0 where
  create : Option Text → Change
  rename : Text → Text → Change
  delete : Text → Change

abbrev pub request_of : Change → SessionRequest
request_of (create name) = SessionRequest.create_session name
request_of (rename target name) = SessionRequest.rename_session target name
request_of (delete target) = SessionRequest.delete_session target

-- The name that the session has afterwards.
abbrev pub new_name : Change → Server → Option Text
new_name (create name) s = some (unwrap_or name (numbered (codes "session-") s.next_session_id))
new_name (rename target name) s = some name
new_name (delete target) s = none

-- The session that is changed: a new one at the counter, or the one of the target.
abbrev pub Chosen : Change → Server → ℕ → Type 0
Chosen (create name) s id = (id ≡ s.next_session_id) × (name_of s id ≡ none)
Chosen (rename target name) s id = (resolve_session_id s target ≡ ok id) × (name_of s id ≢ none)
Chosen (delete target) s id = (resolve_session_id s target ≡ ok id) × (name_of s id ≢ none)

pub name_of-insert :
    (id : ℕ) (session : Session) (s s' : Server)
    → s'.sessions ≡ insert id session s.sessions
    → (j : ℕ) → name_of s' j ≡ (if id == j then some session.name else name_of s j)
name_of-insert id session s s' e j =
    ap (λ m. map_opt (λ (x : Session). x.name) (get j m)) e
    ∙ ap (map_opt (λ (x : Session). x.name)) (get-insert id j session s.sessions)
    ∙ ground arith

name_of-remove :
    (id : ℕ) (s s' : Server)
    → s'.sessions ≡ remove id s.sessions
    → (j : ℕ) → name_of s' j ≡ (if id == j then none else name_of s j)
name_of-remove id s s' e j =
    ap (λ m. map_opt (λ (x : Session). x.name) (get j m)) e
    ∙ ap (map_opt (λ (x : Session). x.name)) (get-remove id j s.sessions)
    ∙ ground arith

unused : (s : Server) → ServerOk s → name_of s s.next_session_id ≡ none
unused s valid = elim (Option-cases (get s.next_session_id s.sessions)) [
  | inl gone ↦ rw gone refl
  | inr (session, found) ↦
      absurd (omega (arith, (valid.sessions.ids s.next_session_id session found).1))
]

there :
    (s : Server) (id : ℕ) (session : Session)
    → get id s.sessions ≡ some session
    → name_of s id ≢ none
there s id session found none' = ground arith

-- On a valid server a request that creates, renames or deletes a session, and returns, does to the
-- names of the sessions by their ids exactly what it says: it sets or removes the one of its session,
-- and leaves the others alone. A new session gets an id that no session has.
pub perform-Chosen :
    (host : Host) (change : Change) (s s' : Server) (o : CommandOutcome)
    → ServerOk s
    → perform host (request_of change) s ≡ (ok o, s')
    → (id : ℕ) × Chosen change s id
      × ((j : ℕ) → name_of s' j ≡ (if id == j then new_name change s else name_of s j))
unfolding perform
perform-Chosen host (create name) s s' o valid e =
    let (session, named, fresh, same) = create_lem host name s s' o e in
    (
      s.next_session_id,
      (refl, unused s valid),
      λ j.
          name_of-insert s.next_session_id session s s' same j
          ∙ ap (λ n. if s.next_session_id == j then some n else name_of s j) named,
    )
perform-Chosen host (rename target name) s s' o valid e =
    let (id, session, resolved, found, same) = rename_lem target name s s' o e in
    (
      id,
      (resolved, there s id session found),
      name_of-insert id (record session { name = name }) s s'
          (ap (λ (t : Server). t.sessions) same ∙ (unfold put_session in refl)),
    )
perform-Chosen host (delete target) s s' o valid e =
    let (id, session, resolved, found, same) = delete_lem host target s s' o e in
    (id, (resolved, there s id session found), name_of-remove id s s' same)
