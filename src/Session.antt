-- ===== src/Session.antt =====
-- A session: its windows and which of them is active (caterm/src/session_manager/session.rs).
use caterm.Prelude.{
  ℕ, ◌+◌, ◌%◌, ◌^◌, Option, none, some, List, [], ◌∷◌, map, max, map_opt, and_then,
}
use caterm.Text.{Text}
use caterm.BTree.{BTree, get, values}
use caterm.Snapshot.{SessionSnapshot}
use caterm.Window
use caterm.Window.{Window}

pub record Session : Type 0 where
  pub id : ℕ
  pub name : Text
  pub windows : BTree Window
  pub active_window_id : Option ℕ

-- `.map(|window| window.index).max()`
unfoldable pub max_index : List Window → Option ℕ
max_index [] = none
max_index (window ∷ windows) = elim (max_index windows) [
  | none ↦ some window.index
  | some best ↦ some (max window.index best)
]

unfoldable pub next_window_index : Session → ℕ
unfolding max_index
next_window_index session = elim (max_index (values session.windows)) [
  | none ↦ 0
  | some index ↦ (index + 1) % 2 ^ 32
]

unfoldable pub snapshot : Session → SessionSnapshot
snapshot session = record {
  id = session.id;
  name = session.name;
  active_window_id = session.active_window_id;
  active_window_index =
      map_opt (λ window. window.index)
        (and_then session.active_window_id (λ id. get id session.windows));
  windows = map Window.snapshot (values session.windows);
}
