-- ===== src/Server/Create/WindowSound.antt =====
-- The request that creates a window keeps the invariant.
use mathlib.Core.Path.{subst}
use caterm.Prelude.{ℕ, ◌≡◌, refl, false, Option, some, [], arith, any, unwrap_or}
use caterm.Text.{Text, codes}
use caterm.Outcome.{ok}
use caterm.BTree.{get, values}
use caterm.BTree.Laws.{get-insert_self}
use caterm.Pty.{Host}
use caterm.Pane.{Pane}
use caterm.Window.{Window}
use caterm.Session.{Session, next_window_index}
use caterm.Server.State.{Server, next_id, put_session, session_at}
use caterm.Server.Resolve.Targets.{resolve_session_id-calm, session_at-calm, session_at-get}
use caterm.Server.Create.{
  create_window, add_window, window_of, report_window, named_window, numbered,
}
use caterm.Server.Create.Sound.{not-true, spent, Sound-spawn, report_window-ok}
use caterm.Server.Select.Place.{Untouched-refl}
use caterm.Server.Valid.{ServerOk, HasRoom, ServerOk-weaken, SessionOk-weaken}
use caterm.Server.Valid.Rules.{
  Sound, Sound-reads, Sound-lift, Sound-gets, Sound-modify, Sound-reads_last, Untouched, Returns,
  guard-calm, guard-ok,
}
use caterm.Server.Valid.Changes.{put_session-ServerOk, add_window-SessionOk, window_of-WindowOk}

abbrev numbered_window : Server → Server
numbered_window s = record s { next_window_id = next_id s.next_window_id }

Untouched-numbered : (s : Server) → ServerOk s → HasRoom s → Untouched s (numbered_window s)
Untouched-numbered s valid room = record {
  valid = ServerOk-weaken s _ refl (omega arith) (omega arith) (omega arith) valid;
  same = refl;
}

Untouched-opened : (s : Server) → ServerOk s → HasRoom s → Untouched s (spent (numbered_window s))
Untouched-opened s valid room = record {
  valid = ServerOk-weaken s _ refl (omega arith) (omega arith) (omega arith) valid;
  same = refl;
}

report_window-put :
    (s : Server) (sid : ℕ) (session : Session) (window : Window) (pane : Pane)
    → get pane.id window.panes ≡ some pane
    → Returns (report_window sid window.id pane.id (put_session sid (add_window session window) s))
unfolding put_session
report_window-put s sid session window pane there =
    report_window-ok _ sid window.id pane.id (add_window session window) window pane
      (get-insert_self sid _ s.sessions) (get-insert_self window.id window session.windows) there

session_at-opened :
    (s : Server) (sid : ℕ)
    → session_at (spent (numbered_window s)) sid ≡ session_at (numbered_window s) sid
unfolding session_at
session_at-opened s sid = refl

-- The end of `create_window`, after the shell has started.
finish :
    (s : Server) (sid index : ℕ) (name : Text) (session current : Session) (pane : Pane)
    → ServerOk s
    → HasRoom s
    → session_at (numbered_window s) sid ≡ ok session
    → session_at (spent (numbered_window s)) sid ≡ ok current
    → pane.id ≡ s.next_pane_id
    → any (named_window name) (values session.windows) ≡ false
    → ServerOk (
        put_session sid
          (add_window current (window_of s.next_window_id index name pane))
          (spent (numbered_window s)))
finish s sid index name session current pane valid room at at' own free =
    let now = spent (numbered_window s) in
    let same : session ≡ current = ground (arith, session_at-opened s sid) in
    let found = session_at-get now sid current at' in
    let u = Untouched-opened s valid room in
    put_session-ServerOk now sid _ current u.valid found refl refl (
      add_window-SessionOk s.next_window_id now.next_window_id now.next_pane_id current
        (window_of s.next_window_id index name pane)
        (SessionOk-weaken s.next_window_id s.next_window_id s.next_pane_id now.next_pane_id current
          (omega arith) (omega (arith, room.panes)) (valid.sessions.ids sid current found).2)
        (omega arith) (omega (arith, room.windows))
        (window_of-WindowOk now.next_pane_id s.next_window_id index name pane
          (omega (arith, own, room.panes)))
        (subst (λ (x : Session). any (named_window name) (values x.windows) ≡ false) same free))

pub create_window-Sound :
    (host : Host) (session_target : Text) (name : Option Text) (s : Server)
    → ServerOk s
    → HasRoom s
    → Sound s (create_window host session_target name s)
unfolding create_window
create_window-Sound host session_target name s valid room =
    Sound-reads _ _ _ _ (Untouched-refl s valid) (resolve_session_id-calm s session_target)
      (λ sid _. Sound-gets _ _ _ _ (
        Sound-modify _ _ _ _ (
          Sound-reads _ _ _ _ (Untouched-numbered s valid room)
            (session_at-calm (numbered_window s) sid)
            (λ session at.
              Sound-lift _ _ _ _ (Untouched-numbered s valid room) (guard-calm _ _) (λ _ free.
                Sound-gets _ _ _ _ (
                  Sound-spawn _ _ _ _ _ _ (Untouched-opened s valid room) (λ pane own named.
                    Sound-reads _ _ _ _ (Untouched-opened s valid room)
                      (session_at-calm (spent (numbered_window s)) sid)
                      (λ current at'. Sound-modify _ _ _ _ (
                        Sound-reads_last _ _ _
                          (finish s sid (next_window_index session)
                            (unwrap_or name
                              (numbered (codes "window-") (next_window_index session)))
                            session current pane valid room at at' own
                            (not-true _ (guard-ok _ _ tt free)))
                          (report_window-put _ sid current _ pane
                            (get-insert_self pane.id pane [])))))))))))
