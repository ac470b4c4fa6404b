-- ===== src/Server/Resolve.antt =====
-- From the targets of a request to ids.
pub mod Targets
use caterm.Prelude.{ℕ, Option, none, some, ◌++◌, find, map_opt, if◌then◌else◌}
use caterm.Text.{Text, codes, text_eq}
use caterm.Text.Decimal.{to_string, parse_u64}
use caterm.Outcome.{Outcome, ok, err, ok_or, and_then}
use caterm.BTree.{values, contains_key}
use caterm.Pane
use caterm.Pane.{Pane}
use caterm.Window
use caterm.Window.{Window}
use caterm.Session.{Session}
use caterm.Request.{SessionRequest, attach}
use caterm.Server.State.{Server, AttachFilter, session_at, window_at}

-- A number is taken for an id, whether or not there is such a session.
unfoldable pub resolve_session_id : Server → Text → Outcome ℕ
resolve_session_id s target = elim (parse_u64 target) [
  | some id ↦ ok id
  | none ↦
      ok_or
        (map_opt (λ session. session.id)
          (find (λ session. text_eq session.name target) (values s.sessions)))
        (codes "session not found: " ++ target)
]

abbrev pub window_by_target : Session → ℕ → Text → Outcome ℕ
window_by_target session sid target =
    ok_or
      (map_opt (λ window. window.id)
        (find (λ window. Window.matches_target window target) (values session.windows)))
      (codes "window not found in session " ++ (to_string sid ++ (codes ": " ++ target)))

-- A number is taken for an id only if there is such a window.
abbrev pub choose_window : Session → ℕ → Text → Option ℕ → Outcome ℕ
choose_window session sid target none = window_by_target session sid target
choose_window session sid target (some id) =
    if contains_key id session.windows then ok id else window_by_target session sid target

unfoldable pub resolve_window_id : Server → ℕ → Text → Outcome ℕ
resolve_window_id s sid target =
    and_then (session_at s sid) (λ session. choose_window session sid target (parse_u64 target))

abbrev pub pane_by_target : Window → ℕ → Text → Outcome ℕ
pane_by_target window wid target =
    ok_or
      (map_opt (λ pane. pane.id)
        (find (λ pane. Pane.matches_target pane target) (values window.panes)))
      (codes "pane not found in window " ++ (to_string wid ++ (codes ": " ++ target)))

-- A number is taken for an id only if there is such a pane.
abbrev pub choose_pane : Window → ℕ → Text → Option ℕ → Outcome ℕ
choose_pane window wid target none = pane_by_target window wid target
choose_pane window wid target (some id) =
    if contains_key id window.panes then ok id else pane_by_target window wid target

unfoldable pub resolve_pane_id : Server → ℕ → ℕ → Text → Outcome ℕ
resolve_pane_id s sid wid target =
    and_then (window_at s sid wid) (λ window. choose_pane window wid target (parse_u64 target))

abbrev pub no_filter : AttachFilter
no_filter = record { session_id = none; window_id = none; pane_id = none }

-- The targets of an attach request, from the outside in; the first one left out ends them.
unfoldable pub resolve_targets :
    Server → Option Text → Option Text → Option Text → Outcome AttachFilter
resolve_targets s none window pane = ok no_filter
resolve_targets s (some session_target) none pane =
    and_then (resolve_session_id s session_target)
      (λ sid. ok (record { session_id = some sid; window_id = none; pane_id = none }))
resolve_targets s (some session_target) (some window_target) none =
    and_then (resolve_session_id s session_target) (λ sid.
      and_then (resolve_window_id s sid window_target)
        (λ wid. ok (record { session_id = some sid; window_id = some wid; pane_id = none })))
resolve_targets s (some session_target) (some window_target) (some pane_target) =
    and_then (resolve_session_id s session_target) (λ sid.
      and_then (resolve_window_id s sid window_target) (λ wid.
        and_then (resolve_pane_id s sid wid pane_target)
          (λ pid. ok (record { session_id = some sid; window_id = some wid; pane_id = some pid }))))

unfoldable pub resolve_attach_filter : Server → SessionRequest → Outcome AttachFilter
resolve_attach_filter s (attach session window pane) = resolve_targets s session window pane
resolve_attach_filter s other = err (codes "attach requires attach request")
