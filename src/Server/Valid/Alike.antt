-- ===== src/Server/Valid/Alike.antt =====
-- Hierarchies that differ below the ids, the names and the choice of the active entries.
use mathlib.Core.Path.{subst}
use caterm.Prelude.{
  ℕ, ◌+◌, ◌<◌, ◌≡◌, refl, Option, some, List, [], ◌∷◌, arith, ap, sym, ◌∙◌, inl, inr, Option-cases,
  Bool-cases, length, ◌==◌,
}
use caterm.BTree.{BTree, get, keys}
use caterm.BTree.Laws.{Ascends-keys, length-keys}
use caterm.Pane.{Pane}
use caterm.Window.{Window}
use caterm.Session.{Session}
use caterm.Roster.{Roster, Active}
use caterm.Server.State.{Server, find_window}
use caterm.Server.Valid.{WindowOk, SessionOk, ServerOk, HasRoom}

-- The same keys, and related values at each.
abbrev pub Alike : {A : Type 0} → (A → A → Type 0) → BTree A → BTree A → Type 0
Alike R [] [] = Unit
Alike R [] (y ∷ n) = ⊥
Alike R (x ∷ m) [] = ⊥
Alike R ((k, a) ∷ m) ((j, b) ∷ n) = (j ≡ k) × R a b × Alike R m n

module _ {A : Type 0} (R : A → A → Type 0) where
  pub Alike-refl : ((a : A) → R a a) → (m : BTree A) → Alike R m m
  Alike-refl r [] = tt
  Alike-refl r ((k, a) ∷ m) = (refl, r a, Alike-refl r m)

  Alike-keys : (m n : BTree A) → Alike R m n → keys m ≡ keys n
  unfolding keys
  Alike-keys [] [] h = refl
  Alike-keys [] (y ∷ n) h = absurd h
  Alike-keys (x ∷ m) [] h = absurd h
  Alike-keys ((k, a) ∷ m) ((j, b) ∷ n) h = ground (arith, h.0, Alike-keys m n h.2)

  Alike-length : (m n : BTree A) → Alike R m n → length n ≡ length m
  Alike-length m n h =
      sym (length-keys n) ∙ ap (λ l. length l) (sym (Alike-keys m n h)) ∙ length-keys m

  Alike-back :
      (k : ℕ) (m n : BTree A) (b : A)
      → Alike R m n
      → get k n ≡ some b
      → (a : A) × (get k m ≡ some a) × R a b
  unfolding get
  Alike-back k [] [] b h e = absurd (ground arith)
  Alike-back k [] (y ∷ n) b h e = absurd h
  Alike-back k (x ∷ m) [] b h e = absurd h
  Alike-back k ((i, a) ∷ m) ((j, c) ∷ n) b h e = elim (Bool-cases (j == k)) [
    | inl hit ↦ (a, ground (arith, h.0), subst (R a) (ground (arith, hit)) h.1)
    | inr miss ↦
        let (u, found, r) = Alike-back k m n b h.2 (ground (arith, miss)) in
        (u, ground (arith, h.0, miss, found), r)
  ]

  Alike-on :
      (k : ℕ) (m n : BTree A) (a : A)
      → Alike R m n
      → get k m ≡ some a
      → (b : A) × (get k n ≡ some b)
  unfolding get
  Alike-on k [] [] a h e = absurd (ground arith)
  Alike-on k [] (y ∷ n) a h e = absurd h
  Alike-on k (x ∷ m) [] a h e = absurd h
  Alike-on k ((i, c) ∷ m) ((j, b) ∷ n) a h e = elim (Bool-cases (j == k)) [
    | inl hit ↦ (b, ground (arith, hit))
    | inr miss ↦
        let (u, found) = Alike-on k m n a h.2 (ground (arith, miss, h.0)) in
        (u, ground (arith, miss, found))
  ]

  Alike-Roster :
      (id : A → ℕ) (name : A → List ℕ) (Q Q' : A → Type 0) (next : ℕ) (m n : BTree A)
      → ((a b : A) → R a b → (id b ≡ id a) × (name b ≡ name a))
      → ((a b : A) → R a b → Q a → Q' b)
      → Alike R m n
      → Roster id name Q next m
      → Roster id name Q' next n
  Alike-Roster id name Q Q' next m n same pass h r = record {
    sorted = Ascends-keys 0 m n (Alike-keys m n h) r.sorted;
    ids = λ k b e.
        let (a, found, rel) = Alike-back k m n b h e in
        let (own, below, q) = r.ids k a found in ((same a b rel).0 ∙ own, below, pass a b rel q);
    names = λ i j a' b' ea eb clash.
        let (a, fa, ra) = Alike-back i m n a' h ea in
        let (b, fb, rb) = Alike-back j m n b' h eb in
        r.names i j a b fa fb (sym (same a a' ra).1 ∙ clash ∙ (same b b' rb).1);
  }

  Alike-Active :
      (active active' : Option ℕ) (m n : BTree A)
      → active' ≡ active
      → Alike R m n
      → Active active m
      → Active active' n
  Alike-Active active active' m n same h (k, a, mark, found) =
      let (b, found') = Alike-on k m n a h found in (k, b, same ∙ mark, found')

abbrev pub SamePane : Pane → Pane → Type 0
SamePane a b = (b.id ≡ a.id) × (b.name ≡ a.name)

pub record SameWindow (a b : Window) : Type 0 where
  pub same_id : b.id ≡ a.id
  pub same_name : b.name ≡ a.name
  pub same_active : b.active_pane_id ≡ a.active_pane_id
  pub panes : Alike SamePane a.panes b.panes

pub record SameSession (a b : Session) : Type 0 where
  pub same_id : b.id ≡ a.id
  pub same_name : b.name ≡ a.name
  pub same_active : b.active_window_id ≡ a.active_window_id
  pub windows : Alike SameWindow a.windows b.windows

pub SameWindow-refl : (a : Window) → SameWindow a a
SameWindow-refl a = record {
  same_id = refl;
  same_name = refl;
  same_active = refl;
  panes = Alike-refl SamePane (λ p. (refl, refl)) a.panes;
}

pub SameSession-refl : (a : Session) → SameSession a a
SameSession-refl a = record {
  same_id = refl;
  same_name = refl;
  same_active = refl;
  windows = Alike-refl SameWindow SameWindow-refl a.windows;
}

WindowOk-same : (np : ℕ) (a b : Window) → SameWindow a b → WindowOk np a → WindowOk np b
WindowOk-same np a b same valid = record {
  panes =
      Alike-Roster SamePane _ _ _ _ np a.panes b.panes (λ p q r. r) (λ p q r u. tt) same.panes
        valid.panes;
  active =
      Alike-Active SamePane a.active_pane_id b.active_pane_id a.panes b.panes same.same_active
        same.panes valid.active;
}

SessionOk-same :
    (nw np : ℕ) (a b : Session) → SameSession a b → SessionOk nw np a → SessionOk nw np b
SessionOk-same nw np a b same valid = record {
  windows =
      Alike-Roster SameWindow _ _ _ _ nw a.windows b.windows (λ p q r. (r.same_id, r.same_name))
        (λ p q r u. WindowOk-same np p q r u) same.windows valid.windows;
  active =
      Alike-Active SameWindow a.active_window_id b.active_window_id a.windows b.windows
        same.same_active same.windows valid.active;
}

-- The same counters over a hierarchy that is alike.
pub record SameServer (s t : Server) : Type 0 where
  pub next_sessions : t.next_session_id ≡ s.next_session_id
  pub next_windows : t.next_window_id ≡ s.next_window_id
  pub next_panes : t.next_pane_id ≡ s.next_pane_id
  pub sessions : Alike SameSession s.sessions t.sessions

pub ServerOk-same : (s t : Server) → SameServer s t → ServerOk s → ServerOk t
ServerOk-same s t same valid = record {
  sessions =
      rw (same.next_sessions, same.next_windows, same.next_panes)
        (Alike-Roster SameSession _ _ _ _ s.next_session_id s.sessions t.sessions
          (λ p q r. (r.same_id, r.same_name))
          (λ p q r u. SessionOk-same s.next_window_id s.next_pane_id p q r u) same.sessions
          valid.sessions);
}

find_window-inv :
    (sessions : BTree Session) (sid wid : ℕ) (window : Window)
    → find_window sessions sid wid ≡ some window
    → (session : Session) × (get sid sessions ≡ some session)
      × (get wid session.windows ≡ some window)
find_window-inv sessions sid wid window e = elim (Option-cases (get sid sessions)) [
  | inl gone ↦ absurd (ground arith)
  | inr (session, found) ↦ (session, found, ground arith)
]

few_panes :
    (s t : Server) (sid wid : ℕ) (window : Window)
    → SameServer s t
    → HasRoom s
    → find_window t.sessions sid wid ≡ some window
    → length window.panes + 1 < 65536
few_panes s t sid wid window same room e =
    let (session, found, there) = find_window-inv t.sessions sid wid window e in
    let (old, found', like) =
      Alike-back SameSession sid s.sessions t.sessions session same.sessions found in
    let (window', there', like') =
      Alike-back SameWindow wid old.windows session.windows window like.windows there in
    rw (Alike-length SamePane window'.panes window.panes like'.panes)
      (room.few sid wid window' (rw found' there'))

pub HasRoom-same : (s t : Server) → SameServer s t → HasRoom s → HasRoom t
HasRoom-same s t same room = record {
  sessions = rw same.next_sessions room.sessions;
  windows = rw same.next_windows room.windows;
  panes = rw same.next_panes room.panes;
  few = λ sid wid window e. few_panes s t sid wid window same room e;
}
