-- ===== src/Relay/Routing/Refine.antt =====
-- The table of the relay behaves as one route for each session, which no other session sees. That
-- idle routes are dropped from the table is not part of this view.
use mathlib.Core.Path.{subst}
use caterm.Prelude.{
  ℕ, true, false, not, ◌&&◌, none, some, List, [], ◌∷◌, is_empty, is_some, if◌then◌else◌, ◌≡◌, refl,
  ap, ◌∙◌, arith, Bool-cases, Option-cases, inl, inr, unwrap_or,
}
use caterm.Text.{Text, text_eq}
use caterm.Text.Laws.{text_eq_sound}
use caterm.BTree.{BTree, insert, remove, values}
use caterm.Relay.Routing.{
  SessionRoute, RoutingTable, lookup, store, entry, no_route, attach_daemon, detach_daemon,
  attach_client, detach_client, daemon_tx, client_txs, lookup-erase, lookup-erase_other,
  lookup-store, lookup-store_other,
}
use caterm.Relay.Routing.Laws.{
  Change, daemon_in, daemon_out, client_in, client_out, apply, apply_all, detach_daemon-gone,
  detach_daemon-found, detach_client-gone, detach_client-found,
}

abbrev pub session_of : Change → Text
session_of (daemon_in id tx) = id
session_of (daemon_out id) = id
session_of (client_in id client_id tx) = id
session_of (client_out id client_id) = id

-- A change on the route of its session.
abbrev pub change_route : Change → SessionRoute → SessionRoute
change_route (daemon_in id tx) route = record route { daemon = some tx }
change_route (daemon_out id) route = record route { daemon = none }
change_route (client_in id client_id tx) route = record route {
  clients = insert client_id tx route.clients;
}
change_route (client_out id client_id) route = record route {
  clients = remove client_id route.clients;
}

-- The changes of one session, from the first one on; those of other sessions are passed over.
abbrev pub follow : Text → List Change → SessionRoute → SessionRoute
follow id [] route = route
follow id (change ∷ changes) route =
    follow id changes (if text_eq (session_of change) id then change_route change route else route)

entry-found :
    (id : Text) (table : RoutingTable) (route : SessionRoute)
    → lookup id table ≡ some route
    → entry id table ≡ route
entry-found id table route found = rw found refl

entry-gone : (id : Text) (table : RoutingTable) → lookup id table ≡ none → entry id table ≡ no_route
entry-gone id table gone = rw gone refl

bare :
    (route : SessionRoute)
    → is_empty route.clients ≡ true
    → no_route ≡ record route { daemon = none }
bare route h = ground arith

idle :
    (left : BTree ℕ) (route : SessionRoute)
    → (not (is_some route.daemon) && is_empty left) ≡ true
    → no_route ≡ record route { clients = left }
idle left route h = ground arith

detach_daemon-own :
    (id : Text) (table : RoutingTable)
    → entry id (detach_daemon id table) ≡ record (entry id table) { daemon = none }
detach_daemon-own id table = elim (Option-cases (lookup id table)) [
  | inl gone ↦ rw (detach_daemon-gone id table gone, gone) refl
  | inr (route, found) ↦ elim (Bool-cases (is_empty route.clients)) [
    | inl alone ↦
        rw (detach_daemon-found id table route found, alone, lookup-erase id table, found)
          (bare route alone)
    | inr served ↦
        rw
          (
            detach_daemon-found id table route found,
            served,
            lookup-store id (record route { daemon = none }) table,
            found,
          )
          refl
  ]
]

detach_client-own :
    (id : Text) (client_id : ℕ) (table : RoutingTable)
    → entry id (detach_client id client_id table)
      ≡ record (entry id table) { clients = remove client_id (entry id table).clients }
detach_client-own id client_id table = elim (Option-cases (lookup id table)) [
  | inl gone ↦ rw (detach_client-gone id table client_id gone, gone) (unfold remove in refl)
  | inr (route, found) ↦
      elim (Bool-cases (not (is_some route.daemon) && is_empty (remove client_id route.clients))) [
        | inl alone ↦
            rw
              (
                detach_client-found id table client_id route found,
                alone,
                lookup-erase id table,
                found,
              )
              (idle (remove client_id route.clients) route alone)
        | inr served ↦
            rw
              (
                detach_client-found id table client_id route found,
                served,
                lookup-store id (record route { clients = remove client_id route.clients }) table,
                found,
              )
              refl
      ]
]

entry-store :
    (id : Text) (route : SessionRoute) (table : RoutingTable)
    → entry id (store id route table) ≡ route
entry-store id route table = rw (lookup-store id route table) refl

-- A change does to the route of its own session what it says.
entry-own :
    (change : Change) (table : RoutingTable)
    → entry (session_of change) (apply change table)
      ≡ change_route change (entry (session_of change) table)
unfolding apply attach_daemon attach_client
entry-own (daemon_in id tx) table = entry-store id _ table
entry-own (daemon_out id) table = detach_daemon-own id table
entry-own (client_in id client_id tx) table = entry-store id _ table
entry-own (client_out id client_id) table = detach_client-own id client_id table

module _ (j : Text) (table : RoutingTable) where
  lookup-detach_daemon :
      (id : Text) → text_eq id j ≡ false → lookup j (detach_daemon id table) ≡ lookup j table
  lookup-detach_daemon id ne = elim (Option-cases (lookup id table)) [
    | inl gone ↦ rw (detach_daemon-gone id table gone) refl
    | inr (route, found) ↦ elim (Bool-cases (is_empty route.clients)) [
      | inl alone ↦
          rw (detach_daemon-found id table route found, alone) (lookup-erase_other id j table ne)
      | inr served ↦
          rw (detach_daemon-found id table route found, served)
            (lookup-store_other id j (record route { daemon = none }) table ne)
    ]
  ]

  lookup-detach_client :
      (id : Text) (client_id : ℕ)
      → text_eq id j ≡ false
      → lookup j (detach_client id client_id table) ≡ lookup j table
  lookup-detach_client id client_id ne = elim (Option-cases (lookup id table)) [
    | inl gone ↦ rw (detach_client-gone id table client_id gone) refl
    | inr (route, found) ↦
        elim (Bool-cases
          (not (is_some route.daemon) && is_empty (remove client_id route.clients))) [
            | inl alone ↦
                rw (detach_client-found id table client_id route found, alone)
                  (lookup-erase_other id j table ne)
            | inr served ↦
                rw (detach_client-found id table client_id route found, served)
                  (lookup-store_other id j
                    (record route { clients = remove client_id route.clients }) table ne)
          ]
  ]

  -- It leaves the others alone.
  entry-other :
      (change : Change)
      → text_eq (session_of change) j ≡ false
      → entry j (apply change table) ≡ entry j table
  unfolding apply attach_daemon attach_client
  entry-other (daemon_in id tx) ne =
      ap (λ o. unwrap_or o no_route) (lookup-store_other id j _ table ne)
  entry-other (daemon_out id) ne = ap (λ o. unwrap_or o no_route) (lookup-detach_daemon id ne)
  entry-other (client_in id client_id tx) ne =
      ap (λ o. unwrap_or o no_route) (lookup-store_other id j _ table ne)
  entry-other (client_out id client_id) ne =
      ap (λ o. unwrap_or o no_route) (lookup-detach_client id client_id ne)

entry-apply :
    (j : Text) (change : Change) (table : RoutingTable)
    → entry j (apply change table) ≡ (
        if text_eq (session_of change) j
        then change_route change (entry j table)
        else entry j table)
entry-apply j change table = elim (Bool-cases (text_eq (session_of change) j)) [
  | inl same ↦ rw same (
      subst (λ x. entry x (apply change table) ≡ change_route change (entry x table))
        (text_eq_sound (session_of change) j same) (entry-own change table))
  | inr other ↦ rw other (entry-other j table change other)
]

entry-apply_all :
    (j : Text) (changes : List Change) (table : RoutingTable)
    → entry j (apply_all changes table) ≡ follow j changes (entry j table)
unfolding apply_all
entry-apply_all j [] table = refl
entry-apply_all j (change ∷ changes) table =
    entry-apply_all j changes (apply change table)
    ∙ ap (follow j changes) (entry-apply j change table)

daemon_tx-entry : (j : Text) (table : RoutingTable) → daemon_tx j table ≡ (entry j table).daemon
unfolding daemon_tx
daemon_tx-entry j table = ground arith

client_txs-entry :
    (j : Text) (table : RoutingTable) → client_txs j table ≡ values (entry j table).clients
unfolding client_txs values
client_txs-entry j table = ground arith

-- Whatever connections come and go, what the relay finds for a session is what one route has become
-- that has followed the changes of this session alone, from one with no daemon and no clients on.
pub apply_all-follow :
    (j : Text) (changes : List Change)
    → (daemon_tx j (apply_all changes []) ≡ (follow j changes no_route).daemon)
      × (client_txs j (apply_all changes []) ≡ values (follow j changes no_route).clients)
unfolding lookup
apply_all-follow j changes =
    let e = entry-apply_all j changes [] in
    (
      daemon_tx-entry j (apply_all changes []) ∙ ap (λ r. r.daemon) e,
      client_txs-entry j (apply_all changes []) ∙ ap (λ r. values r.clients) e,
    )
