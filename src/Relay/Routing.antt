-- ===== src/Relay/Routing.antt =====
-- The relay's table of routes (caterm-relay/src/routing.rs). A channel's sender is a number, as is a
-- `Uuid`; the table is a list of entries, and a route keeps its clients in the order of their ids,
-- where the source leaves both orders open.
pub mod Laws
pub mod Refine
use mathlib.Core.Path.{subst}
use caterm.Prelude.{
  ℕ, Bool, true, false, not, ◌&&◌, Option, none, some, List, [], ◌∷◌, is_empty, is_some, map_opt,
  and_then, unwrap_or, if◌then◌else◌, ◌≡◌, refl, arith, Bool-cases, Option-cases, inl, inr, ap, sym,
  ◌∙◌,
}
use caterm.Text.{Text, text_eq}
use caterm.Text.Laws.{text_eq_refl, text_eq_sound}
use caterm.BTree.{BTree, insert, remove, values, get}

pub record SessionRoute : Type 0 where
  pub daemon : Option ℕ
  pub clients : BTree ℕ

-- `sessions` of `RoutingTable`.
abbrev pub RoutingTable : Type 0
RoutingTable = List (Text × SessionRoute)

unfoldable pub lookup : Text → RoutingTable → Option SessionRoute
lookup id [] = none
lookup id ((k, route) ∷ table) = if text_eq k id then some route else lookup id table

unfoldable pub erase : Text → RoutingTable → RoutingTable
erase id [] = []
erase id ((k, route) ∷ table) =
    let rest = erase id table in if text_eq k id then rest else (k, route) ∷ rest

abbrev pub store : Text → SessionRoute → RoutingTable → RoutingTable
store id route table = (id, route) ∷ erase id table

abbrev pub no_route : SessionRoute
no_route = record { daemon = none; clients = [] }

-- `sessions.entry(id).or_default()`
abbrev pub entry : Text → RoutingTable → SessionRoute
entry id table = unwrap_or (lookup id table) no_route

unfoldable pub attach_daemon : Text → ℕ → RoutingTable → RoutingTable
attach_daemon id tx table = store id (record (entry id table) { daemon = some tx }) table

unfoldable pub detach_daemon : Text → RoutingTable → RoutingTable
detach_daemon id table = elim (lookup id table) [
  | none ↦ table
  | some route ↦
      if is_empty route.clients
      then erase id table
      else store id (record route { daemon = none }) table
]

-- `client_id` is the answer of `Uuid::new_v4()`.
unfoldable pub attach_client : Text → ℕ → ℕ → RoutingTable → RoutingTable
attach_client id client_id tx table =
    let route = entry id table in
    store id (record route { clients = insert client_id tx route.clients }) table

unfoldable pub detach_client : Text → ℕ → RoutingTable → RoutingTable
detach_client id client_id table = elim (lookup id table) [
  | none ↦ table
  | some route ↦
      let left = remove client_id route.clients in
      if not (is_some route.daemon) && is_empty left
      then erase id table
      else store id (record route { clients = left }) table
]

unfoldable pub daemon_tx : Text → RoutingTable → Option ℕ
daemon_tx id table = and_then (lookup id table) (λ route. route.daemon)

unfoldable pub client_txs : Text → RoutingTable → List ℕ
client_txs id table = unwrap_or (map_opt (λ route. values route.clients) (lookup id table)) []

lookup-erase : (id : Text) (table : RoutingTable) → lookup id (erase id table) ≡ none
unfolding lookup erase
lookup-erase id [] = refl
lookup-erase id ((k, route) ∷ table) = ground (arith, lookup-erase id table)

lookup-erase_other :
    (id j : Text) (table : RoutingTable)
    → text_eq id j ≡ false
    → lookup j (erase id table) ≡ lookup j table
unfolding lookup erase
lookup-erase_other id j [] ne = refl
lookup-erase_other id j ((k, route) ∷ table) ne = elim (Bool-cases (text_eq k id)) [
  | inl hit ↦ rw (hit, miss_of hit) (lookup-erase_other id j table ne)
  | inr miss ↦ ground (arith, lookup-erase_other id j table ne)
]
  where
    miss_of : text_eq k id ≡ true → text_eq k j ≡ false
    miss_of hit = subst (λ x. text_eq x j ≡ false) (sym (text_eq_sound k id hit)) ne

lookup-store :
    (id : Text) (route : SessionRoute) (table : RoutingTable)
    → lookup id (store id route table) ≡ some route
unfolding lookup
lookup-store id route table = ground (arith, text_eq_refl id)

lookup-store_other :
    (id j : Text) (route : SessionRoute) (table : RoutingTable)
    → text_eq id j ≡ false
    → lookup j (store id route table) ≡ lookup j table
unfolding lookup
lookup-store_other id j route table ne = ground (arith, lookup-erase_other id j table ne)
