-- ===== src/Server/Filter/Visible.antt =====
-- What a filtered snapshot shows.
use caterm.Prelude.{
  ℕ, Bool, true, Option, none, some, List, [], ◌∷◌, map, retain, ◌≡◌, refl, arith, Bool-cases, inl,
  inr, All,
}
use caterm.Snapshot.{PaneSnapshot, WindowSnapshot, SessionSnapshot, ServerSnapshot}
use caterm.Server.State.{AttachFilter}
use caterm.Server.Filter.{
  admits, keep_session, keep_window, keep_pane, filter_snapshot, only_window, only_pane,
  only_pane_windows, has_windows, has_panes,
}

module _ {A : Type 0} where
  All-retain : (P : A → Type 0) (p : A → Bool) (l : List A) → All P l → All P (retain p l)
  All-retain P p [] h = tt
  All-retain P p (x ∷ l) h = elim (Bool-cases (p x)) [
    | inl hit ↦ rw hit (h.0, All-retain P p l h.1)
    | inr miss ↦ rw miss (All-retain P p l h.1)
  ]

  All-retained :
      (P : A → Type 0) (p : A → Bool) (l : List A)
      → ((x : A) → p x ≡ true → P x)
      → All P (retain p l)
  All-retained P p [] h = tt
  All-retained P p (x ∷ l) h = elim (Bool-cases (p x)) [
    | inl hit ↦ rw hit (h x hit, All-retained P p l h)
    | inr miss ↦ rw miss (All-retained P p l h)
  ]

  All-map :
      (P Q : A → Type 0) (f : A → A) (l : List A)
      → ((x : A) → P x → Q (f x))
      → All P l
      → All Q (map f l)
  All-map P Q f [] pass h = tt
  All-map P Q f (x ∷ l) pass h = (pass x h.0, All-map P Q f l pass h.1)

  All-imp : (P Q : A → Type 0) (l : List A) → ((x : A) → P x → Q x) → All P l → All Q l
  All-imp P Q [] pass h = tt
  All-imp P Q (x ∷ l) pass h = (pass x h.0, All-imp P Q l pass h.1)

  All-any : (P : A → Type 0) (l : List A) → ((x : A) → P x) → All P l
  All-any P [] h = tt
  All-any P (x ∷ l) h = (h x, All-any P l h)

-- A window shows only panes that the filter admits, and a session only such windows.
abbrev pub PaneVisible : AttachFilter → PaneSnapshot → Type 0
PaneVisible filter pane = admits filter.pane_id pane.id ≡ true

abbrev pub WindowVisible : AttachFilter → WindowSnapshot → Type 0
WindowVisible filter window =
    (admits filter.window_id window.id ≡ true) × All (PaneVisible filter) window.panes

abbrev pub SessionVisible : AttachFilter → SessionSnapshot → Type 0
SessionVisible filter session =
    (admits filter.session_id session.id ≡ true) × All (WindowVisible filter) session.windows

abbrev SessionNamed : Option ℕ → SessionSnapshot → Type 0
SessionNamed wanted session = admits wanted session.id ≡ true

abbrev WindowNamed : Option ℕ → WindowSnapshot → Type 0
WindowNamed wanted window = admits wanted window.id ≡ true

abbrev WindowsNamed : AttachFilter → SessionSnapshot → Type 0
WindowsNamed filter session =
    SessionNamed filter.session_id session × All (WindowNamed filter.window_id) session.windows

keep_session-All :
    (wanted : Option ℕ) (sessions : List SessionSnapshot)
    → All (SessionNamed wanted) (keep_session wanted sessions)
unfolding keep_session
keep_session-All none sessions = All-any _ sessions (λ x. refl)
keep_session-All (some sid) sessions = All-retained _ _ sessions (λ x h. ground arith)

keep_window-All :
    (filter : AttachFilter) (wanted : Option ℕ) (sessions : List SessionSnapshot)
    → filter.window_id ≡ wanted
    → All (SessionNamed filter.session_id) sessions
    → All (WindowsNamed filter) (keep_window wanted sessions)
unfolding keep_window
keep_window-All filter none sessions e h =
    All-imp _ _ sessions (λ session own. (own, rw e (All-any _ session.windows (λ x. refl)))) h
keep_window-All filter (some wid) sessions e h =
    All-retain _ has_windows (map (only_window wid) sessions) (
      All-map _ (WindowsNamed filter) (only_window wid) sessions
        (λ session own. (own, rw e (All-retained _ _ session.windows (λ x hit. ground arith)))) h)

pane_window :
    (filter : AttachFilter) (pid : ℕ) (window : WindowSnapshot)
    → filter.pane_id ≡ some pid
    → WindowNamed filter.window_id window
    → WindowVisible filter (only_pane pid window)
pane_window filter pid window e named =
    (named, rw e (All-retained _ _ window.panes (λ x hit. ground arith)))

pane_session :
    (filter : AttachFilter) (pid : ℕ) (session : SessionSnapshot)
    → filter.pane_id ≡ some pid
    → WindowsNamed filter session
    → SessionVisible filter (only_pane_windows pid session)
pane_session filter pid session e named = (
  named.0,
  All-retain (WindowVisible filter) has_panes (map (only_pane pid) session.windows) (
      All-map (WindowNamed filter.window_id) (WindowVisible filter) (only_pane pid) session.windows
        (λ window w. pane_window filter pid window e w) named.1),
)

all_panes :
    (filter : AttachFilter) (session : SessionSnapshot)
    → filter.pane_id ≡ none
    → WindowsNamed filter session
    → SessionVisible filter session
all_panes filter session e named = (
  named.0,
  All-imp (WindowNamed filter.window_id) (WindowVisible filter) session.windows
      (λ window w. (w, rw e (All-any _ window.panes (λ x. refl)))) named.1,
)

keep_pane-All :
    (filter : AttachFilter) (wanted : Option ℕ) (sessions : List SessionSnapshot)
    → filter.pane_id ≡ wanted
    → All (WindowsNamed filter) sessions
    → All (SessionVisible filter) (keep_pane wanted sessions)
unfolding keep_pane
keep_pane-All filter none sessions e h =
    All-imp _ _ sessions (λ session own. all_panes filter session e own) h
keep_pane-All filter (some pid) sessions e h =
    All-retain _ has_windows (map (only_pane_windows pid) sessions) (
      All-map _ (SessionVisible filter) (only_pane_windows pid) sessions
        (λ session own. pane_session filter pid session e own) h)

-- A filtered snapshot shows only sessions, windows and panes that the filter admits.
pub filter_snapshot-All :
    (view : ServerSnapshot) (filter : AttachFilter)
    → All (SessionVisible filter) (filter_snapshot view filter).sessions
unfolding filter_snapshot
filter_snapshot-All view filter = keep_pane-All filter filter.pane_id _ refl (
    keep_window-All filter filter.window_id _ refl
      (keep_session-All filter.session_id view.sessions))
