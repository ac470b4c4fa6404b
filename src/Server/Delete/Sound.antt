-- ===== src/Server/Delete/Sound.antt =====
-- The requests that delete a session or a window keep the invariant.
use caterm.Prelude.{
  ℕ, ◌≡◌, refl, ◌≢◌, false, Option, some, List, [], ◌∷◌, arith, inl, inr, Bool-cases, length, ◌==◌,
}
use caterm.Text.{Text}
use caterm.BTree.{BTree, get, remove}
use caterm.BTree.Search.{first-get, other_entry}
use caterm.BTree.Laws.{get-remove}
use caterm.Pty.{Host, PtySession}
use caterm.Session.{Session}
use caterm.Roster.{Roster-remove, Active}
use caterm.Server.State.{Server}
use caterm.Server.Resolve.Targets.{
  resolve_session_id-calm, resolve_window_id-calm, session_at-calm, session_at-get,
}
use caterm.Server.Create.Sound.{not-true}
use caterm.Server.Select.Place.{Untouched-refl}
use caterm.Server.Delete.{delete_session, delete_window, drop_window, reselect, end_all}
use caterm.Server.Valid.{SessionOk, ServerOk}
use caterm.Server.Valid.Rules.{
  Sound, Sound-reads, Sound-lift, Sound-modify, Sound-gets_last, guard-calm, guard-ok, ok_or-calm,
}
use caterm.Server.Valid.Changes.{put_session-ServerOk}

-- An entry is active after a removal that leaves one.
reselect-Active :
    {A : Type 0} (active : Option ℕ) (removed other : ℕ) (v : A) (m : BTree A)
    → Active active m
    → get other (remove removed m) ≡ some v
    → Active (reselect active removed (remove removed m)) (remove removed m)
reselect-Active active removed other v m (k, u, mark, found) there =
    let (j, w, head, inside) = first-get (remove removed m) other v there in
    elim (Bool-cases (k == removed)) [
      | inl hit ↦ (j, w, ground (arith, mark), inside)
      | inr miss ↦ (k, u, ground (arith, mark), ground (arith, get-remove removed k m))
    ]

pub occupied : {V : Type 0} (k : ℕ) (u : V) (m : BTree V) → get k m ≡ some u → length m ≢ 0
unfolding get
occupied k u [] e h = ground arith
occupied k u (x ∷ m) e h = omega arith

pub not_one : (n : ℕ) → (n == 1) ≡ false → n ≢ 1
not_one n h e = ground arith

pub end_all-ServerOk :
    (shells : List PtySession) (s : Server) → ServerOk s → ServerOk (end_all shells s)
end_all-ServerOk shells s valid = record { sessions = valid.sessions }

drop_window-SessionOk :
    (nw np wid : ℕ) (session : Session)
    → SessionOk nw np session
    → length session.windows ≢ 1
    → SessionOk nw np (drop_window wid session)
drop_window-SessionOk nw np wid session valid more =
    let (k, u, mark, found) = valid.active in
    let (other, v, there) =
      other_entry wid session.windows 0 valid.windows.sorted (occupied k u session.windows found)
        more in
    record {
      windows = Roster-remove _ _ _ nw wid session.windows valid.windows;
      active =
          reselect-Active session.active_window_id wid other v session.windows valid.active there;
    }

pub delete_session-Sound :
    (host : Host) (target : Text) (s : Server) → ServerOk s → Sound s (delete_session host target s)
unfolding delete_session
delete_session-Sound host target s valid =
    Sound-reads _ _ _ _ (Untouched-refl s valid) (resolve_session_id-calm s target) (λ sid _.
      Sound-reads _ _ _ _ (Untouched-refl s valid) (session_at-calm s sid) (λ session at.
        Sound-modify _ _ _ _ (
          Sound-modify _ _ _ _ (
            Sound-gets_last _ _ _ (record {
              sessions = Roster-remove _ _ _ s.next_session_id sid s.sessions valid.sessions;
            })))))

pub delete_window-Sound :
    (host : Host) (session_target target : Text) (s : Server)
    → ServerOk s
    → Sound s (delete_window host session_target target s)
unfolding delete_window
delete_window-Sound host session_target target s valid =
    Sound-reads _ _ _ _ (Untouched-refl s valid) (resolve_session_id-calm s session_target)
      (λ sid _.
        Sound-reads _ _ _ _ (Untouched-refl s valid) (resolve_window_id-calm s sid target) (λ wid _.
          Sound-reads _ _ _ _ (Untouched-refl s valid) (session_at-calm s sid) (λ session at.
            Sound-lift _ _ _ _ (Untouched-refl s valid) (guard-calm _ _) (λ _ more.
              Sound-lift _ _ _ _ (Untouched-refl s valid) (ok_or-calm _ _) (λ window _.
                Sound-modify _ _ _ _ (
                  Sound-modify _ _ _ _ (
                    Sound-gets_last _ _ _ (
                      let found = session_at-get s sid session at in
                      end_all-ServerOk _ _ (
                        put_session-ServerOk s sid _ session valid found refl refl (
                          drop_window-SessionOk s.next_window_id s.next_pane_id wid session
                            (valid.sessions.ids sid session found).2
                            (not_one _ (not-true _ (guard-ok _ _ tt more)))))))))))))
