-- ===== src/Server/Restore/Laws.antt =====
-- The end of a daemon leaves nothing behind; a saved layout is read back.
use caterm.Prelude.{
  ℕ, suc, ◌^◌, ◌<◌, ◌≤◌, ◌≡◌, refl, ◌∙◌, ap, some, List, [], ◌∷◌, arith, true, Bool-cases, inl, inr,
  any, ◌==◌,
}
use caterm.Text.{text_eq}
use caterm.Text.Decimal.{to_string}
use caterm.Outcome.{◌>>=◌}
use caterm.BTree.{BTree, get, remove, keys, Ascends}
use caterm.Pty.{Host}
use caterm.Session.{Session}
use caterm.Window.{WindowLayout, single, tiled, horizontal, vertical, as_str}
use caterm.Server.State.{Server, session_at}
use caterm.Server.Resolve.Targets.{resolve_session_id-to_string}
use caterm.Server.Delete.{delete_session}
use caterm.Server.Dispatch.{delete_all}
use caterm.Server.Restore.{
  parse_layout, shutdown_all, prune_empty_containers, prune_sessions, retain_values,
}
use caterm.Server.Valid.{ServerOk}

-- `parse_layout` reads back what `as_str` writes.
pub parse_layout-as_str : (layout : WindowLayout) → parse_layout (as_str layout) ≡ layout
unfolding parse_layout as_str text_eq
parse_layout-as_str single = refl
parse_layout-as_str tiled = refl
parse_layout-as_str horizontal = refl
parse_layout-as_str vertical = refl

delete_session-remove :
    (host : Host) (id : ℕ) (session : Session) (s : Server)
    → id < 2 ^ 64
    → get id s.sessions ≡ some session
    → (delete_session host (to_string id) s).1.sessions ≡ remove id s.sessions
unfolding delete_session ◌>>=◌ session_at
delete_session-remove host id session s small found =
    rw (resolve_session_id-to_string s id small, found) refl

-- All keys are below 2^64.
abbrev Small : List ℕ → Type 0
Small [] = Unit
Small (k ∷ l) = (k < 2 ^ 64) × Small l

get-head : (k : ℕ) (session : Session) (m : BTree Session) → get k ((k, session) ∷ m) ≡ some session
unfolding get
get-head k session m = ground arith

remove-below : (low k : ℕ) (m : BTree Session) → Ascends low m → k < low → remove k m ≡ m
unfolding remove
remove-below low k [] s lt = refl
remove-below low k ((j, v) ∷ m) s lt = ground (arith, remove-below (suc j) k m s.1)

remove-head :
    (k : ℕ) (session : Session) (m : BTree Session)
    → Ascends (suc k) m
    → remove k ((k, session) ∷ m) ≡ m
unfolding remove
remove-head k session m s = ground (arith, remove-below (suc k) k m s)

delete_all-empty :
    (host : Host) (low : ℕ) (m : BTree Session) (s : Server)
    → s.sessions ≡ m
    → Ascends low m
    → Small (keys m)
    → (delete_all host (keys m) s).sessions ≡ []
unfolding delete_all keys
delete_all-empty host low [] s e sorted small = e
delete_all-empty host low ((k, session) ∷ m) s e sorted small =
    delete_all-empty host (suc k) m (delete_session host (to_string k) s).1
      (delete_session-remove host k session s small.0 (ap (get k) e ∙ get-head k session m)
        ∙ ap (remove k) e
        ∙ remove-head k session m sorted.1)
      sorted.1 small.1

Small-keys :
    (next : ℕ) (m : BTree Session)
    → next ≤ 2 ^ 64
    → ((k : ℕ) → any (λ j. j == k) (keys m) ≡ true → k < next)
    → Small (keys m)
unfolding keys
Small-keys next [] le h = tt
Small-keys next ((k, session) ∷ m) le h =
    (omega (arith, h k (ground arith)), Small-keys next m le (λ j e. h j (ground arith)))

keys-get :
    (k : ℕ) (m : BTree Session)
    → any (λ j. j == k) (keys m) ≡ true
    → (v : Session) × (get k m ≡ some v)
unfolding keys get
keys-get k [] h = absurd (ground arith)
keys-get k ((j, v) ∷ m) h = elim (Bool-cases (j == k)) [
  | inl hit ↦ (v, rw hit)
  | inr miss ↦ let (u, found) = keys-get k m (ground arith) in (u, ground (arith, found))
]

prune-empty : prune_empty_containers [] ≡ []
unfolding prune_empty_containers prune_sessions retain_values
prune-empty = refl

-- From a valid state whose ids fit in 64 bits, the shutdown leaves no session: whatever the system
-- answers, no deletion fails.
pub shutdown_all-empty :
    (host : Host) (s : Server)
    → ServerOk s
    → s.next_session_id ≤ 2 ^ 64
    → (shutdown_all host s).sessions ≡ []
unfolding shutdown_all
shutdown_all-empty host s valid le =
    let small =
      Small-keys s.next_session_id s.sessions le
        (λ k e. let (v, found) = keys-get k s.sessions e in (valid.sessions.ids k v found).1) in
    ap prune_empty_containers
      (delete_all-empty host 0 s.sessions s refl valid.sessions.sorted small)
    ∙ prune-empty
