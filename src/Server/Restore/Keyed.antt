-- ===== src/Server/Restore/Keyed.antt =====
-- Maps whose entries stand at their ids, and insertion at the end of one.
use caterm.Prelude.{ℕ, suc, ◌≤◌, ◌<◌, ◌≡◌, refl, some, [], ◌∷◌, ◌++◌, arith}
use caterm.BTree.{BTree, get, insert, Ascends}
use caterm.Window.{Window}
use caterm.Session.{Session}
use caterm.BTree.Laws.{get-below}
use caterm.Server.Valid.{WindowOk, SessionOk}

-- Every key is below `low`.
abbrev pub Under : {A : Type 0} → ℕ → BTree A → Type 0
Under low [] = Unit
Under low ((k, v) ∷ m) = (k < low) × Under low m

pub Under-insert :
    {A : Type 0} (low k : ℕ) (v : A) (m : BTree A)
    → Under low m
    → low ≤ k
    → Under (suc k) (m ++ (k, v) ∷ [])
Under-insert low k v [] h le = (omega arith, tt)
Under-insert low k v ((j, u) ∷ m) h le = (omega (arith, h.0), Under-insert low k v m h.1 le)

-- A key above all others goes to the end.
pub insert-end :
    {A : Type 0} (low k : ℕ) (v : A) (m : BTree A)
    → Under low m
    → low ≤ k
    → insert k v m ≡ m ++ (k, v) ∷ []
unfolding insert
insert-end low k v [] h le = refl
insert-end low k v ((j, u) ∷ m) h le = ground (arith, insert-end low k v m h.1 le, h.0)

get-head : {A : Type 0} (k : ℕ) (v : A) (m : BTree A) → get k ((k, v) ∷ m) ≡ some v
unfolding get
get-head k v m = ground arith

get-tail :
    {A : Type 0} (k j : ℕ) (v u : A) (m : BTree A)
    → Ascends (suc k) m
    → get j m ≡ some u
    → get j ((k, v) ∷ m) ≡ some u
unfolding get
get-tail k j v u m s e = ground (arith, e, get-below (suc k) j m s)

-- Every entry stands at its id and satisfies `Q`.
abbrev pub Keyed : {A : Type 0} → (A → ℕ) → (A → Type 0) → BTree A → Type 0
Keyed id Q [] = Unit
Keyed id Q ((k, v) ∷ m) = (id v ≡ k) × Q v × Keyed id Q m

pub Keyed-below :
    {A : Type 0} (id : A → ℕ) (Q : A → Type 0) (low : ℕ) (m : BTree A)
    → Ascends low m
    → ((k : ℕ) (v : A) → get k m ≡ some v → (id v ≡ k) × Q v)
    → Keyed id Q m
Keyed-below id Q low [] s h = tt
Keyed-below id Q low ((k, v) ∷ m) s h =
    let here = h k v (get-head k v m) in
    (here.0, here.1, Keyed-below id Q (suc k) m s.1 (λ j u e. h j u (get-tail k j v u m s.1 e)))

abbrev pub GoodWindow : Window → Type 0
GoodWindow window = Ascends 0 window.panes × Keyed (λ p. p.id) (λ _. Unit {0}) window.panes

abbrev pub GoodSession : Session → Type 0
GoodSession session = Ascends 0 session.windows × Keyed (λ w. w.id) GoodWindow session.windows

good_window : (np : ℕ) (window : Window) → WindowOk np window → GoodWindow window
good_window np window valid = (
  valid.panes.sorted,
  Keyed-below _ _ 0 window.panes valid.panes.sorted (λ k v e. ((valid.panes.ids k v e).0, tt)),
)

pub good_session : (nw np : ℕ) (session : Session) → SessionOk nw np session → GoodSession session
good_session nw np session valid = (
  valid.windows.sorted,
  Keyed-below _ _ 0 session.windows valid.windows.sorted
      (λ k v e. let own = valid.windows.ids k v e in (own.0, good_window np v own.2)),
)
