-- ===== src/Server/Resolve/Targets.antt =====
-- What the resolution of targets finds.
use caterm.Prelude.{
  ℕ, ◌<◌, ◌^◌, ◌≡◌, ◌≢◌, ◌⊎◌, inl, inr, Bool, true, Option, none, some, arith, find, map_opt, sym,
  ap, ◌∙◌, Option-cases,
}
use caterm.Text.{Text}
use caterm.Text.Decimal.{parse_u64, to_string}
use caterm.Text.Decimal.RoundTrip.{parse-to_string}
use caterm.Outcome.{ok, panic, ok_or}
use caterm.Outcome.Laws.{and_then-eq-ok, ok_or-eq-ok}
use caterm.BTree.{BTree, get, values}
use caterm.BTree.Search.{find-get}
use caterm.Pane
use caterm.Pane.{Pane}
use caterm.Window
use caterm.Window.{Window}
use caterm.Session.{Session}
use caterm.Roster.{Roster}
use caterm.Server.State.{Server, find_window, session_at, window_at}
use caterm.Server.Resolve.{
  resolve_session_id, resolve_window_id, resolve_pane_id, window_by_target, pane_by_target,
  choose_window, choose_pane,
}
use caterm.Server.Valid.{WindowOk, SessionOk, ServerOk}
use caterm.Server.Valid.Rules.{ok_or-calm, and_then-calm}

pub session_at-calm : (s : Server) (sid : ℕ) → session_at s sid ≢ panic
unfolding session_at
session_at-calm s sid = ok_or-calm _ _

pub window_at-calm : (s : Server) (sid wid : ℕ) → window_at s sid wid ≢ panic
unfolding window_at
window_at-calm s sid wid = ok_or-calm _ _

pub session_at-get :
    (s : Server) (sid : ℕ) (session : Session)
    → session_at s sid ≡ ok session
    → get sid s.sessions ≡ some session
unfolding session_at
session_at-get s sid session h = ok_or-eq-ok (get sid s.sessions) _ h

pub window_at-get :
    (s : Server) (sid wid : ℕ) (window : Window)
    → window_at s sid wid ≡ ok window
    → (session : Session) × (get sid s.sessions ≡ some session)
      × (get wid session.windows ≡ some window)
unfolding window_at
window_at-get s sid wid window h =
    let found = ok_or-eq-ok (find_window s.sessions sid wid) _ h in
    elim (Option-cases (get sid s.sessions)) [
      | inl e ↦ absurd (ground arith)
      | inr (session, e) ↦ (session, e, ground arith)
    ]

pub resolve_session_id-calm : (s : Server) (target : Text) → resolve_session_id s target ≢ panic
unfolding resolve_session_id
resolve_session_id-calm s target e = ground arith

pub resolve_window_id-calm :
    (s : Server) (sid : ℕ) (target : Text) → resolve_window_id s sid target ≢ panic
unfolding resolve_window_id
resolve_window_id-calm s sid target =
    and_then-calm (session_at s sid) _ (session_at-calm s sid) (λ session e. ground arith)

pub resolve_pane_id-calm :
    (s : Server) (sid wid : ℕ) (target : Text) → resolve_pane_id s sid wid target ≢ panic
unfolding resolve_pane_id
resolve_pane_id-calm s sid wid target =
    and_then-calm (window_at s sid wid) _ (window_at-calm s sid wid) (λ window e. ground arith)

-- A search by name or index finds an entry at its own id.
find-id :
    {V : Type 0} (id : V → ℕ) (name : V → Text) (Q : V → Type 0) (next : ℕ) (p : V → Bool)
    (m : BTree V) (k : ℕ) (message : Text)
    → Roster id name Q next m
    → ok_or (map_opt id (find p (values m))) message ≡ ok k
    → (v : V) × (get k m ≡ some v) × (p v ≡ true)
find-id id name Q next p m k message r h = elim (Option-cases (find p (values m))) [
  | inl e ↦ absurd (ground arith)
  | inr (v, e) ↦
      let (j, found, holds) = find-get p m v 0 r.sorted e in
      let at : id v ≡ k = ground arith in
      (v, ap (λ i. get i m) (sym at ∙ (r.ids j v found).0) ∙ found, holds)
]

by_window_target :
    (session : Session) (sid next_window next_pane wid : ℕ) (target : Text)
    → SessionOk next_window next_pane session
    → window_by_target session sid target ≡ ok wid
    → (window : Window) × (get wid session.windows ≡ some window)
      × (Window.matches_target window target ≡ true)
by_window_target session sid nw np wid target valid h =
    find-id (λ w. w.id) (λ w. w.name) (WindowOk np) nw (λ w. Window.matches_target w target)
      session.windows wid _ valid.windows h

window_choice :
    (session : Session) (sid next_window next_pane wid : ℕ) (target : Text) (parsed : Option ℕ)
    → SessionOk next_window next_pane session
    → choose_window session sid target parsed ≡ ok wid
    → (window : Window) × (get wid session.windows ≡ some window)
      × ((parsed ≡ some wid) ⊎ (Window.matches_target window target ≡ true))
window_choice session sid nw np wid target none valid h =
    let (window, found, holds) = by_window_target session sid nw np wid target valid h in
    (window, found, inr holds)
window_choice session sid nw np wid target (some id) valid h =
    elim (Option-cases (get id session.windows)) [
      | inl e ↦
          let (window, found, holds) =
            by_window_target session sid nw np wid target valid (ground arith) in
          (window, found, inr holds)
      | inr (window, e) ↦
          let same : id ≡ wid = ground arith in
          (
            window,
            ap (λ i. get i session.windows) (sym same) ∙ e,
            inl (ap (λ (i : ℕ). some i) same),
          )
    ]

by_pane_target :
    (window : Window) (wid next_pane pid : ℕ) (target : Text)
    → WindowOk next_pane window
    → pane_by_target window wid target ≡ ok pid
    → (pane : Pane) × (get pid window.panes ≡ some pane) × (Pane.matches_target pane target ≡ true)
by_pane_target window wid np pid target valid h =
    find-id (λ p. p.id) (λ p. p.name) (λ _. Unit {0}) np (λ p. Pane.matches_target p target)
      window.panes pid _ valid.panes h

pane_choice :
    (window : Window) (wid next_pane pid : ℕ) (target : Text) (parsed : Option ℕ)
    → WindowOk next_pane window
    → choose_pane window wid target parsed ≡ ok pid
    → (pane : Pane) × (get pid window.panes ≡ some pane)
      × ((parsed ≡ some pid) ⊎ (Pane.matches_target pane target ≡ true))
pane_choice window wid np pid target none valid h =
    let (pane, found, holds) = by_pane_target window wid np pid target valid h in
    (pane, found, inr holds)
pane_choice window wid np pid target (some id) valid h = elim (Option-cases (get id window.panes)) [
  | inl e ↦
      let (pane, found, holds) = by_pane_target window wid np pid target valid (ground arith) in
      (pane, found, inr holds)
  | inr (pane, e) ↦
      let same : id ≡ pid = ground arith in
      (pane, ap (λ i. get i window.panes) (sym same) ∙ e, inl (ap (λ (i : ℕ). some i) same))
]

-- In a valid server a resolved window target is a window of the session: the one with that id, if
-- the target is a number and there is one, or one with that name or index.
pub resolve_window_id_lem :
    (s : Server) (sid wid : ℕ) (target : Text)
    → ServerOk s
    → resolve_window_id s sid target ≡ ok wid
    → (session : Session) × (window : Window) × (get sid s.sessions ≡ some session)
      × (get wid session.windows ≡ some window)
      × ((parse_u64 target ≡ some wid) ⊎ (Window.matches_target window target ≡ true))
unfolding resolve_window_id
resolve_window_id_lem s sid wid target valid h =
    let (session, at, choice) = and_then-eq-ok (session_at s sid) _ h in
    let found = session_at-get s sid session at in
    let (window, there, why) =
      window_choice session sid s.next_window_id s.next_pane_id wid target (parse_u64 target)
        (valid.sessions.ids sid session found).2 choice in
    (session, window, found, there, why)

-- In a valid server a resolved pane target is a pane of the window: the one with that id, if the
-- target is a number and there is one, or one with that name or index.
pub resolve_pane_id_lem :
    (s : Server) (sid wid pid : ℕ) (target : Text)
    → ServerOk s
    → resolve_pane_id s sid wid target ≡ ok pid
    → (window : Window) × (pane : Pane) × (window_at s sid wid ≡ ok window)
      × (get pid window.panes ≡ some pane)
      × ((parse_u64 target ≡ some pid) ⊎ (Pane.matches_target pane target ≡ true))
unfolding resolve_pane_id
resolve_pane_id_lem s sid wid pid target valid h =
    let (window, at, choice) = and_then-eq-ok (window_at s sid wid) _ h in
    let (session, found, there) = window_at-get s sid wid window at in
    let window_valid = ((valid.sessions.ids sid session found).2.windows.ids wid window there).2 in
    let (pane, here, why) =
      pane_choice window wid s.next_pane_id pid target (parse_u64 target) window_valid choice in
    (window, pane, at, here, why)

-- The id of a session, written as a number, is resolved to itself, whatever the sessions are.
pub resolve_session_id-to_string :
    (s : Server) (id : ℕ) → id < 2 ^ 64 → resolve_session_id s (to_string id) ≡ ok id
unfolding resolve_session_id
resolve_session_id-to_string s id small = ground (arith, parse-to_string id small)
