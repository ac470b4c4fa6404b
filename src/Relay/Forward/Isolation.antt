-- ===== src/Relay/Forward/Isolation.antt =====
-- A connection of the relay reaches only the opposite role of its own session (caterm-relay/src/main.rs
-- and routing.rs).
use mathlib.Core.Path.{subst}
use caterm.Prelude.{
  ℕ, Bool, true, false, ◌&&◌, ◌||◌, Option, some, List, [], ◌∷◌, ◌++◌, map, any, append_assoc_lem,
  sym, ◌∙◌, ◌==◌, ◌≡◌, refl, ◌⊎◌, inl, inr, arith, Bool-cases,
}
use caterm.Text.{Text, text_eq}
use caterm.BTree.{BTree, insert, remove, values}
use caterm.Relay.Auth.{ConnectionRole, daemon, client}
use caterm.Relay.Handshake.{register}
use caterm.Relay.Routing.{SessionRoute, RoutingTable, no_route}
use caterm.Relay.Routing.Laws.{
  Change, daemon_in, daemon_out, client_in, client_out, apply, apply_all,
}
use caterm.Relay.Routing.Refine.{follow, apply_all-follow}
use caterm.Relay.Forward.{
  Turn, message, close, failed, option_to_list, recipients, forward, run_socket,
}

abbrev pub peer : ConnectionRole → ConnectionRole
peer daemon = client
peer client = daemon

-- The change registers the channel under that role and session.
abbrev pub registers : ConnectionRole → Text → ℕ → Change → Bool
registers daemon id tx (daemon_in j t) = text_eq j id && t == tx
registers client id tx (client_in j client_id t) = text_eq j id && t == tx
registers role id tx change = false

any-insert :
    (p : ℕ → Bool) (k v : ℕ) (m : BTree ℕ)
    → any p (values (insert k v m)) ≡ true
    → (p v ≡ true) ⊎ (any p (values m) ≡ true)
unfolding insert values
any-insert p k v [] h = ground arith
any-insert p k v ((j, w) ∷ m) h = ground (arith, any-insert p k v m)

any-remove :
    (p : ℕ → Bool) (k : ℕ) (m : BTree ℕ)
    → any p (values (remove k m)) ≡ true
    → any p (values m) ≡ true
unfolding remove values
any-remove p k [] h = ground arith
any-remove p k ((j, w) ∷ m) h = ground (arith, any-remove p k m)

addressed : {tx : ℕ} {o : Option ℕ} → any (λ t. t == tx) (option_to_list o) ≡ true → o ≡ some tx
addressed {tx} {o} h = ground arith

module _ (id : Text) (tx : ℕ) where
  daemon-follow :
      (changes : List Change) (route : SessionRoute)
      → (follow id changes route).daemon ≡ some tx
      → (route.daemon ≡ some tx) ⊎ (any (registers daemon id tx) changes ≡ true)
  daemon-follow [] route h = inl h
  daemon-follow (daemon_in j t ∷ changes) route h = ground (arith, daemon-follow changes _ h)
  daemon-follow (daemon_out j ∷ changes) route h = ground (arith, daemon-follow changes _ h)
  daemon-follow (client_in j c t ∷ changes) route h = ground (arith, daemon-follow changes _ h)
  daemon-follow (client_out j c ∷ changes) route h = ground (arith, daemon-follow changes _ h)

  clients-follow :
      (changes : List Change) (route : SessionRoute)
      → any (λ t. t == tx) (values (follow id changes route).clients) ≡ true
      → (any (λ t. t == tx) (values route.clients) ≡ true)
        ⊎ (any (registers client id tx) changes ≡ true)
  clients-follow [] route h = inl h
  clients-follow (daemon_in j t ∷ changes) route h = ground (arith, clients-follow changes _ h)
  clients-follow (daemon_out j ∷ changes) route h = ground (arith, clients-follow changes _ h)
  clients-follow (client_in j c t ∷ changes) route h =
      ground (arith, clients-follow changes _ h, any-insert (λ t. t == tx) c t route.clients)
  clients-follow (client_out j c ∷ changes) route h =
      ground (arith, clients-follow changes _ h, any-remove (λ t. t == tx) c route.clients)

  recipients-registers :
      (role : ConnectionRole) (changes : List Change)
      → any (λ t. t == tx) (recipients role id (apply_all changes [])) ≡ true
      → any (registers (peer role) id tx) changes ≡ true
  unfolding recipients
  recipients-registers daemon changes h =
      elim (clients-follow changes no_route (rw (apply_all-follow id changes).1 at h)) [
        | inl old ↦ absurd (unfold values in ground (arith, old))
        | inr found ↦ found
      ]
  recipients-registers client changes h =
      elim (daemon-follow changes no_route (addressed (rw (apply_all-follow id changes).0 at h))) [
        | inl old ↦ absurd (ground (arith, old))
        | inr found ↦ found
      ]

apply_all-append :
    (before after : List Change) (table : RoutingTable)
    → apply_all (before ++ after) table ≡ apply_all after (apply_all before table)
unfolding apply_all
apply_all-append [] after table = refl
apply_all-append (change ∷ before) after table = apply_all-append before after (apply change table)

any-append :
    {A : Type 0} (p : A → Bool) (xs ys : List A) → any p (xs ++ ys) ≡ (any p xs || any p ys)
any-append p [] ys = refl
any-append p (x ∷ xs) ys = ground (arith, any-append p xs ys)

any-map :
    (tx m : ℕ) (txs : List ℕ)
    → any (λ (s : ℕ × ℕ). s.0 == tx) (map (λ t. (t, m)) txs) ≡ any (λ t. t == tx) txs
any-map tx m [] = refl
any-map tx m (t ∷ txs) = ground (arith, any-map tx m txs)

-- What the others do while the connection lives.
abbrev pub seen : List Turn → List Change
seen [] = []
seen ((changes, frame) ∷ turns) = changes ++ seen turns

-- The connection's own change at its start.
abbrev pub joins : ConnectionRole → Text → ℕ → ℕ → Change
joins daemon id fresh tx = daemon_in id tx
joins client id fresh tx = client_in id fresh tx

change-joins :
    (role : ConnectionRole) (id : Text) (fresh tx : ℕ) (table : RoutingTable)
    → (register role id fresh tx table).1 ≡ apply (joins role id fresh tx) table
unfolding register apply
change-joins daemon id fresh tx table = refl
change-joins client id fresh tx table = refl

forward-registers :
    (role : ConnectionRole) (id : Text) (tx : ℕ) (turns : List Turn) (before : List Change)
    → any (λ (s : ℕ × ℕ). s.0 == tx) (forward role id turns (apply_all before [])).0 ≡ true
    → any (registers (peer role) id tx) (before ++ seen turns) ≡ true
unfolding forward
forward-registers role id tx [] before h = absurd (ground arith)
forward-registers role id tx ((changes, close) ∷ turns) before h = absurd (ground arith)
forward-registers role id tx ((changes, failed) ∷ turns) before h = absurd (ground arith)
forward-registers role id tx ((changes, message m) ∷ turns) before h =
    let now = before ++ changes in
    let test : ℕ × ℕ → Bool = λ s. s.0 == tx in
    let sent : List (ℕ × ℕ) = map (λ t. (t, m)) (recipients role id (apply_all now [])) in
    let later = (forward role id turns (apply_all now [])).0 in
    let hit : any test (sent ++ later) ≡ true = rw (apply_all-append before changes []) h in
    let goal = any (registers (peer role) id tx) in
    subst (λ l. goal l ≡ true) (append_assoc_lem before changes (seen turns))
      (elim (Bool-cases (any test sent)) [
        | inl now_hit ↦ ground (
          arith,
          any-append (registers (peer role) id tx) now (seen turns),
          recipients-registers id tx role now
              (sym (any-map tx m (recipients role id (apply_all now []))) ∙ now_hit),
        )
        | inr not_now ↦
            forward-registers role id tx turns now (ground (arith, any-append test sent later))
      ])

-- A connection sends its frames only to channels that have been registered under its own session and
-- in the opposite role, by connections that came before it or while it lives, whatever else happens
-- to the table in the meantime.
pub run_socket-registers :
    (role : ConnectionRole) (id : Text) (fresh own tx : ℕ) (turns : List Turn)
    (before : List Change)
    → any (λ (s : ℕ × ℕ). s.0 == tx) (run_socket role id fresh own turns (apply_all before [])).0
      ≡ true
    → any (registers (peer role) id tx) (before ++ (joins role id fresh own ∷ seen turns)) ≡ true
unfolding run_socket apply_all
run_socket-registers role id fresh own tx turns before h =
    let joined = before ++ joins role id fresh own ∷ [] in
    let same : (register role id fresh own (apply_all before [])).1 ≡ apply_all joined [] =
      change-joins role id fresh own (apply_all before [])
      ∙ sym (apply_all-append before (joins role id fresh own ∷ []) []) in
    subst (λ l. any (registers (peer role) id tx) l ≡ true)
      (append_assoc_lem before (joins role id fresh own ∷ []) (seen turns))
      (forward-registers role id tx turns joined
        (subst (λ t. any (λ (s : ℕ × ℕ). s.0 == tx) (forward role id turns t).0 ≡ true) same h))
