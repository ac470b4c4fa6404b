-- ===== src/Server/Select/Sound.antt =====
-- The requests that select keep the invariant.
use caterm.Prelude.{ℕ, ◌≡◌, refl, some, ◌∙◌}
use caterm.Text.{Text}
use caterm.BTree.{get, insert}
use caterm.BTree.Laws.{get-insert_self}
use caterm.Pane.{Pane}
use caterm.Window.{Window, sync_layout}
use caterm.Session.{Session}
use caterm.Server.State.{Server, put_session, put_window}
use caterm.Server.Resolve.Targets.{
  resolve_session_id-calm, resolve_window_id-calm, resolve_pane_id-calm, session_at-calm,
  window_at-calm, session_at-get, window_at-get,
}
use caterm.Server.Select.{select_window, select_pane, activate_window}
use caterm.Server.Valid.{WindowOk, SessionOk, ServerOk}
use caterm.Server.Valid.Rules.{Sound, Sound-reads, Sound-modify, Sound-reads_last, Returns-expect}
use caterm.Server.Valid.Changes.{
  put_session-ServerOk, put_window-ServerOk, put_window-SessionOk, find_window-put_session,
  find_pane-put_window,
}
use caterm.Server.Select.Place.{Untouched-refl, Place, Place-of, window_in, pane_in}

sync_layout-WindowOk :
    (np : ℕ) (window : Window) → WindowOk np window → WindowOk np (sync_layout window)
unfolding sync_layout
sync_layout-WindowOk np window ok' = record { panes = ok'.panes; active = ok'.active }

activate_window-eq :
    (wid : ℕ) (session : Session) (window : Window)
    → get wid session.windows ≡ some window
    → activate_window wid session ≡ record session {
      windows = insert wid (sync_layout window) session.windows;
      active_window_id = some wid;
    }
activate_window-eq wid session window found = unfold activate_window in rw (found, activate_window)

activate_window-SessionOk :
    (nw np wid : ℕ) (session : Session) (window : Window)
    → SessionOk nw np session
    → get wid session.windows ≡ some window
    → SessionOk nw np (activate_window wid session)
activate_window-SessionOk nw np wid session window valid found =
    let kept =
      put_window-SessionOk nw np wid session (sync_layout window) window valid found
        (unfold sync_layout in refl) (unfold sync_layout in refl)
        (sync_layout-WindowOk np window (valid.windows.ids wid window found).2) in
    rw (activate_window-eq wid session window found) (record {
      windows = kept.windows;
      active = (wid, sync_layout window, refl, get-insert_self wid _ session.windows);
    })

select_window-ServerOk :
    (s : Server) (sid wid : ℕ) (session : Session) (window : Window)
    → ServerOk s
    → Place s sid wid session window
    → ServerOk (put_session sid (activate_window wid session) s)
select_window-ServerOk s sid wid session window valid place =
    put_session-ServerOk s sid _ session valid place.found
      (rw (activate_window-eq wid session window place.there) refl)
      (rw (activate_window-eq wid session window place.there) refl)
      (activate_window-SessionOk s.next_window_id s.next_pane_id wid session window place.session_ok
        place.there)

activate_window-get :
    (wid : ℕ) (session : Session) (window : Window)
    → get wid session.windows ≡ some window
    → get wid (activate_window wid session).windows ≡ some (sync_layout window)
activate_window-get wid session window there =
    rw (activate_window-eq wid session window there)
      (get-insert_self wid (sync_layout window) session.windows)

select_pane-ServerOk :
    (s : Server) (sid wid pid : ℕ) (session : Session) (window : Window) (pane : Pane)
    → ServerOk s
    → Place s sid wid session window
    → get pid window.panes ≡ some pane
    → ServerOk (put_window sid wid (record (sync_layout window) { active_pane_id = some pid }) s)
unfolding sync_layout
select_pane-ServerOk s sid wid pid session window pane valid place found =
    put_window-ServerOk s sid wid session _ window valid place.found place.there refl refl
      (record { panes = place.window_ok.panes; active = (pid, pane, refl, found) })

pub select_window-Sound :
    (session_target target : Text) (s : Server)
    → ServerOk s
    → Sound s (select_window session_target target s)
unfolding select_window
select_window-Sound session_target target s valid =
    Sound-reads _ _ _ _ (Untouched-refl s valid) (resolve_session_id-calm s session_target)
      (λ sid _.
        Sound-reads _ _ _ _ (Untouched-refl s valid) (resolve_window_id-calm s sid target)
          (λ wid resolved.
            Sound-reads _ _ _ _ (Untouched-refl s valid) (session_at-calm s sid) (λ session at.
              Sound-modify _ _ _ _ (
                let found = session_at-get s sid session at in
                let (window, there) = window_in s sid wid target session valid resolved found in
                Sound-reads_last _ _ _
                  (select_window-ServerOk s sid wid session window valid
                    (Place-of s sid wid session window valid found there))
                  (Returns-expect _ _ (sync_layout window)
                    (find_window-put_session s sid wid (activate_window wid session)
                      ∙ activate_window-get wid session window there)
                    tt)))))

panes-sync : (window : Window) (pid : ℕ) → get pid (sync_layout window).panes ≡ get pid window.panes
unfolding sync_layout
panes-sync window pid = refl

pub select_pane-Sound :
    (session_target window_target target : Text) (s : Server)
    → ServerOk s
    → Sound s (select_pane session_target window_target target s)
unfolding select_pane
select_pane-Sound session_target window_target target s valid =
    Sound-reads _ _ _ _ (Untouched-refl s valid) (resolve_session_id-calm s session_target)
      (λ sid _.
        Sound-reads _ _ _ _ (Untouched-refl s valid) (resolve_window_id-calm s sid window_target)
          (λ wid _.
            Sound-reads _ _ _ _ (Untouched-refl s valid) (resolve_pane_id-calm s sid wid target)
              (λ pid resolved.
                Sound-reads _ _ _ _ (Untouched-refl s valid) (window_at-calm s sid wid)
                  (λ window at. Sound-modify _ _ _ _ (
                    let (session, found, there) = window_at-get s sid wid window at in
                    let (pane, inside) = pane_in s sid wid pid target window valid resolved at in
                    Sound-reads_last _ _ _
                      (select_pane-ServerOk s sid wid pid session window pane valid
                        (Place-of s sid wid session window valid found there) inside)
                      (Returns-expect _ _ pane
                        (find_pane-put_window s sid wid pid session
                            (record (sync_layout window) { active_pane_id = some pid }) found
                          ∙ panes-sync window pid
                          ∙ inside)
                        tt))))))
