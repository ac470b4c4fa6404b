-- ===== src/Relay/Routing/Laws.antt =====
-- No route of the relay is idle, and what the operations do to it.
use caterm.Prelude.{
  ℕ, false, not, ◌&&◌, none, some, List, [], ◌∷◌, is_empty, is_some, if◌then◌else◌, ◌≡◌, refl,
  arith, Bool-cases, Option-cases, inl, inr,
}
use caterm.Text.{Text, text_eq}
use caterm.BTree.{BTree, insert, remove, values}
use caterm.Relay.Routing.{
  SessionRoute, RoutingTable, lookup, erase, store, entry, attach_daemon, detach_daemon,
  attach_client, detach_client, daemon_tx, client_txs, lookup-erase, lookup-store,
  lookup-store_other,
}

-- A route serves someone: it has a daemon or a client.
abbrev pub InUse : SessionRoute → Type 0
InUse route = (not (is_some route.daemon) && is_empty route.clients) ≡ false

-- Every entry of the table is in use.
abbrev pub NoIdle : RoutingTable → Type 0
NoIdle [] = Unit
NoIdle ((k, route) ∷ table) = InUse route × NoIdle table

erase-NoIdle : (id : Text) (table : RoutingTable) → NoIdle table → NoIdle (erase id table)
unfolding erase
erase-NoIdle id [] h = tt
erase-NoIdle id ((k, route) ∷ table) h = elim (Bool-cases (text_eq k id)) [
  | inl hit ↦ rw hit (erase-NoIdle id table h.1)
  | inr miss ↦ rw miss (h.0, erase-NoIdle id table h.1)
]

-- The changes of the table.
pub data Change : Type 0 where
  daemon_in : Text → ℕ → Change
  daemon_out : Text → Change
  client_in : Text → ℕ → ℕ → Change
  client_out : Text → ℕ → Change

unfoldable pub apply : Change → RoutingTable → RoutingTable
apply (daemon_in id tx) table = attach_daemon id tx table
apply (daemon_out id) table = detach_daemon id table
apply (client_in id client_id tx) table = attach_client id client_id tx table
apply (client_out id client_id) table = detach_client id client_id table

unfoldable pub apply_all : List Change → RoutingTable → RoutingTable
apply_all [] table = table
apply_all (change ∷ changes) table = apply_all changes (apply change table)

insert_some : (k v : ℕ) (m : BTree ℕ) → is_empty (insert k v m) ≡ false
unfolding insert
insert_some k v [] = refl
insert_some k v (x ∷ m) = ground arith

module _ (id : Text) (table : RoutingTable) where
  pub detach_daemon-gone : lookup id table ≡ none → detach_daemon id table ≡ table
  detach_daemon-gone gone = unfold detach_daemon in ground (arith, gone)

  pub detach_daemon-found :
      (route : SessionRoute)
      → lookup id table ≡ some route
      → detach_daemon id table ≡ (
          if is_empty route.clients
          then erase id table
          else store id (record route { daemon = none }) table)
  detach_daemon-found route found = unfold detach_daemon in rw (found, detach_daemon)

  pub detach_client-gone :
      (client_id : ℕ) → lookup id table ≡ none → detach_client id client_id table ≡ table
  detach_client-gone client_id gone = unfold detach_client in ground (arith, gone)

  pub detach_client-found :
      (client_id : ℕ) (route : SessionRoute)
      → lookup id table ≡ some route
      → detach_client id client_id table ≡ (
          if not (is_some route.daemon) && is_empty (remove client_id route.clients)
          then erase id table
          else store id (record route { clients = remove client_id route.clients }) table)
  detach_client-found client_id route found = unfold detach_client in rw (found, detach_client)

detach_daemon-NoIdle :
    (id : Text) (table : RoutingTable) → NoIdle table → NoIdle (detach_daemon id table)
detach_daemon-NoIdle id table h = elim (Option-cases (lookup id table)) [
  | inl gone ↦ rw (detach_daemon-gone id table gone) h
  | inr (route, found) ↦ elim (Bool-cases (is_empty route.clients)) [
    | inl alone ↦ rw (detach_daemon-found id table route found, alone) (erase-NoIdle id table h)
    | inr served ↦
        rw (detach_daemon-found id table route found, served) (served, erase-NoIdle id table h)
  ]
]

detach_client-NoIdle :
    (id : Text) (client_id : ℕ) (table : RoutingTable)
    → NoIdle table
    → NoIdle (detach_client id client_id table)
detach_client-NoIdle id client_id table h = elim (Option-cases (lookup id table)) [
  | inl gone ↦ rw (detach_client-gone id table client_id gone) h
  | inr (route, found) ↦
      elim (Bool-cases (not (is_some route.daemon) && is_empty (remove client_id route.clients))) [
        | inl idle ↦
            rw (detach_client-found id table client_id route found, idle) (erase-NoIdle id table h)
        | inr served ↦
            rw (detach_client-found id table client_id route found, served)
              (served, erase-NoIdle id table h)
      ]
]

apply-NoIdle : (change : Change) (table : RoutingTable) → NoIdle table → NoIdle (apply change table)
unfolding apply attach_daemon attach_client
apply-NoIdle (daemon_in id tx) table h = (refl, erase-NoIdle id table h)
apply-NoIdle (daemon_out id) table h = detach_daemon-NoIdle id table h
apply-NoIdle (client_in id client_id tx) table h =
    (ground (arith, insert_some client_id tx (entry id table).clients), erase-NoIdle id table h)
apply-NoIdle (client_out id client_id) table h = detach_client-NoIdle id client_id table h

apply_all-NoIdle-from :
    (changes : List Change) (table : RoutingTable) → NoIdle table → NoIdle (apply_all changes table)
unfolding apply_all
apply_all-NoIdle-from [] table h = h
apply_all-NoIdle-from (change ∷ changes) table h =
    apply_all-NoIdle-from changes (apply change table) (apply-NoIdle change table h)

-- Whatever connections come and go, from the empty table on, no route without a daemon and without
-- clients stays in the table.
pub apply_all-NoIdle : (changes : List Change) → NoIdle (apply_all changes [])
apply_all-NoIdle changes = apply_all-NoIdle-from changes [] tt

same_clients :
    (id : Text) (tx : ℕ) (table : RoutingTable)
    → client_txs id (attach_daemon id tx table) ≡ client_txs id table
unfolding attach_daemon client_txs values
same_clients id tx table = elim (Option-cases (lookup id table)) [
  | inl gone ↦
      rw (lookup-store id (record (entry id table) { daemon = some tx }) table) (rw gone refl)
  | inr (route, found) ↦
      rw (lookup-store id (record (entry id table) { daemon = some tx }) table) (rw found refl)
]

detach_daemon-none :
    (id : Text) (table : RoutingTable) → daemon_tx id (detach_daemon id table) ≡ none
unfolding daemon_tx
detach_daemon-none id table = elim (Option-cases (lookup id table)) [
  | inl gone ↦ rw (detach_daemon-gone id table gone, gone) refl
  | inr (route, found) ↦ elim (Bool-cases (is_empty route.clients)) [
    | inl alone ↦ rw (detach_daemon-found id table route found, alone, lookup-erase id table) refl
    | inr served ↦
        rw
          (
            detach_daemon-found id table route found,
            served,
            lookup-store id (record route { daemon = none }) table,
          )
          refl
  ]
]

-- The requests of a session go to the daemon that has attached last, and the routes of other
-- sessions stay as they were.
attach_daemon_lem :
    (id j : Text) (tx : ℕ) (table : RoutingTable)
    → text_eq id j ≡ false
    → (daemon_tx id (attach_daemon id tx table) ≡ some tx)
      × (client_txs id (attach_daemon id tx table) ≡ client_txs id table)
      × (lookup j (attach_daemon id tx table) ≡ lookup j table)
unfolding attach_daemon daemon_tx
attach_daemon_lem id j tx table ne = (
  rw (lookup-store id (record (entry id table) { daemon = some tx }) table) refl,
  same_clients id tx table,
  lookup-store_other id j (record (entry id table) { daemon = some tx }) table ne,
)

-- When a daemon connects in the place of another and the old connection ends afterwards, the session
-- is left without a daemon.
pub detach_daemon-newer :
    (id : Text) (older newer : ℕ) (table : RoutingTable)
    → daemon_tx id (detach_daemon id (attach_daemon id newer (attach_daemon id older table))) ≡ none
detach_daemon-newer id older newer table =
    detach_daemon-none id (attach_daemon id newer (attach_daemon id older table))
