-- ===== src/Server/Select/RenameSound.antt =====
-- The requests that rename keep the invariant.
use caterm.Prelude.{ℕ, ◌≡◌, refl, false, some, any}
use caterm.Text.{Text}
use caterm.Outcome.Laws.{ok_or-eq-ok}
use caterm.BTree.{get, insert, values}
use caterm.Pane.{Pane}
use caterm.Window.{Window}
use caterm.Session.{Session}
use caterm.Roster.{Roster-rename, Active-insert}
use caterm.Server.State.{Server, put_session, put_window}
use caterm.Server.Resolve.Targets.{
  resolve_session_id-calm, resolve_window_id-calm, resolve_pane_id-calm, session_at-calm,
  window_at-calm, session_at-get, window_at-get,
}
use caterm.Server.Create.Sound.{not-true}
use caterm.Server.Select.{
  rename_session, rename_window, rename_pane, other_session, other_window, other_pane,
}
use caterm.Server.Valid.{ServerOk}
use caterm.Server.Valid.Rules.{
  Sound, Sound-reads, Sound-lift, Sound-modify, Sound-reads_last, guard-calm, guard-ok, ok_or-calm,
}
use caterm.Server.Valid.Changes.{put_session-ServerOk, put_window-ServerOk, put_window-eq}
use caterm.Server.Select.Place.{Untouched-refl, Place, Place-of}

rename_session-ServerOk :
    (s : Server) (sid : ℕ) (name : Text) (session : Session)
    → ServerOk s
    → get sid s.sessions ≡ some session
    → session.id ≡ sid
    → any (other_session sid name) (values s.sessions) ≡ false
    → ServerOk (put_session sid (record session { name = name }) s)
unfolding put_session
rename_session-ServerOk s sid name session valid found own free =
    let ok' = (valid.sessions.ids sid session found).2 in
    record {
      sessions =
          Roster-rename _ _ _ s.next_session_id sid _ session s.sessions valid.sessions found own
            (record { windows = ok'.windows; active = ok'.active }) free;
    }

pub rename_session-Sound :
    (target name : Text) (s : Server) → ServerOk s → Sound s (rename_session target name s)
unfolding rename_session
rename_session-Sound target name s valid =
    Sound-reads _ _ _ _ (Untouched-refl s valid) (resolve_session_id-calm s target) (λ sid _.
      Sound-reads _ _ _ _ (Untouched-refl s valid) (guard-calm _ _) (λ _ free.
        Sound-reads _ _ _ _ (Untouched-refl s valid) (session_at-calm s sid) (λ session at.
          Sound-modify _ _ _ _ (
            Sound-reads_last _ _ _
              (let found = session_at-get s sid session at in
                let own = valid.sessions.ids sid session found in
                rename_session-ServerOk s sid name session valid found own.0
                  (not-true _ (guard-ok _ _ tt free)))
              tt))))

rename_window-ServerOk :
    (s : Server) (sid wid : ℕ) (name : Text) (session : Session) (window : Window)
    → ServerOk s
    → Place s sid wid session window
    → any (other_window wid name) (values session.windows) ≡ false
    → ServerOk (put_window sid wid (record window { name = name }) s)
rename_window-ServerOk s sid wid name session window valid place free =
    rw (put_window-eq s sid wid session (record window { name = name }) place.found) (
      put_session-ServerOk s sid _ session valid place.found refl refl (record {
        windows =
            Roster-rename _ _ _ s.next_window_id wid _ window session.windows
              place.session_ok.windows place.there place.window_own
              (record { panes = place.window_ok.panes; active = place.window_ok.active }) free;
        active =
            Active-insert session.active_window_id wid _ session.windows place.session_ok.active;
      }))

pub rename_window-Sound :
    (session_target target name : Text) (s : Server)
    → ServerOk s
    → Sound s (rename_window session_target target name s)
unfolding rename_window
rename_window-Sound session_target target name s valid =
    Sound-reads _ _ _ _ (Untouched-refl s valid) (resolve_session_id-calm s session_target)
      (λ sid _.
        Sound-reads _ _ _ _ (Untouched-refl s valid) (resolve_window_id-calm s sid target) (λ wid _.
          Sound-reads _ _ _ _ (Untouched-refl s valid) (session_at-calm s sid) (λ session at.
            Sound-lift _ _ _ _ (Untouched-refl s valid) (guard-calm _ _) (λ _ free.
              Sound-lift _ _ _ _ (Untouched-refl s valid) (ok_or-calm _ _) (λ window there.
                Sound-modify _ _ _ _ (
                  Sound-reads_last _ _ _
                    (rename_window-ServerOk s sid wid name session window valid
                      (Place-of s sid wid session window valid (session_at-get s sid session at)
                        (ok_or-eq-ok _ _ there))
                      (not-true _ (guard-ok _ _ tt free)))
                    tt))))))

rename_pane-ServerOk :
    (s : Server) (sid wid pid : ℕ) (name : Text) (session : Session) (window : Window) (pane : Pane)
    → ServerOk s
    → Place s sid wid session window
    → get pid window.panes ≡ some pane
    → any (other_pane pid name) (values window.panes) ≡ false
    → ServerOk (
        put_window sid wid
          (record window { panes = insert pid (record pane { name = name }) window.panes })
          s)
rename_pane-ServerOk s sid wid pid name session window pane valid place found free =
    put_window-ServerOk s sid wid session _ window valid place.found place.there refl refl (record {
      panes =
          Roster-rename _ _ _ s.next_pane_id pid _ pane window.panes place.window_ok.panes found
            (place.window_ok.panes.ids pid pane found).0 tt free;
      active = Active-insert window.active_pane_id pid _ window.panes place.window_ok.active;
    })

pub rename_pane-Sound :
    (session_target window_target target name : Text) (s : Server)
    → ServerOk s
    → Sound s (rename_pane session_target window_target target name s)
unfolding rename_pane
rename_pane-Sound session_target window_target target name s valid =
    Sound-reads _ _ _ _ (Untouched-refl s valid) (resolve_session_id-calm s session_target)
      (λ sid _.
        Sound-reads _ _ _ _ (Untouched-refl s valid) (resolve_window_id-calm s sid window_target)
          (λ wid _.
            Sound-reads _ _ _ _ (Untouched-refl s valid) (resolve_pane_id-calm s sid wid target)
              (λ pid _.
                Sound-reads _ _ _ _ (Untouched-refl s valid) (window_at-calm s sid wid)
                  (λ window at.
                    Sound-lift _ _ _ _ (Untouched-refl s valid) (guard-calm _ _) (λ _ free.
                      Sound-lift _ _ _ _ (Untouched-refl s valid) (ok_or-calm _ _) (λ pane there.
                        Sound-modify _ _ _ _ (
                          Sound-reads_last _ _ _
                            (let (session, found, inside) = window_at-get s sid wid window at in
                              rename_pane-ServerOk s sid wid pid name session window pane valid
                                (Place-of s sid wid session window valid found inside)
                                (ok_or-eq-ok _ _ there) (not-true _ (guard-ok _ _ tt free)))
                            tt)))))))
