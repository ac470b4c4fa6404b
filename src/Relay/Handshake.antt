-- ===== src/Relay/Handshake.antt =====
-- The handshake of a relay connection (caterm-relay/src/main.rs). What the http library answers for
-- `request.uri().path()` and `request.uri().query()` are arguments.
pub mod Address
use caterm.Prelude.{
  ℕ, false, Option, none, some, List, [], ◌∷◌, ◌++◌, ◌==◌, any, is_empty, unwrap_or, if◌then◌else◌,
  ◌≡◌, refl, ◌≢◌, arith, ap, ◌∙◌, append_assoc_lem, Bool-cases, inl, inr,
}
use caterm.Text.{Text, codes, text_eq}
use caterm.Outcome.{Outcome, ok, err, panic}
use caterm.Relay.Auth.{ConnectionRole, daemon, client, RelayAuth, authorize}
use caterm.Relay.Routing.{RoutingTable, attach_daemon, attach_client, detach_daemon, detach_client}
use caterm.Relay.Client.{RelayClientConfig, build_ws_url, token_part, trim_end_slashes}

pub record HandshakeContext : Type 0 where
  pub session_id : Text
  pub role : ConnectionRole

-- `Result<HandshakeContext, (StatusCode, String)>`
pub data Parsed : Type 0 where
  accepted : HandshakeContext → Parsed
  refused : ℕ → Text → Parsed

-- `strip_prefix`
unfoldable pub strip_prefix : Text → Text → Option Text
strip_prefix [] s = some s
strip_prefix (c ∷ p) [] = none
strip_prefix (c ∷ p) (d ∷ s) = if c == d then strip_prefix p s else none

abbrev pub on_first : ℕ → List Text → List Text
on_first c [] = (c ∷ []) ∷ []
on_first c (part ∷ parts) = (c ∷ part) ∷ parts

-- `split('&')`; 38 is the ampersand.
unfoldable pub split : Text → List Text
split [] = [] ∷ []
split (c ∷ s) = let rest = split s in if c == 38 then [] ∷ rest else on_first c rest

-- The two parts of `splitn(2, '=')`, the second one empty when there is no such sign; 61 is it.
unfoldable pub cut : Text → Text × Text
cut [] = ([], [])
cut (c ∷ s) = let (key, value) = cut s in if c == 61 then ([], s) else (c ∷ key, value)

-- The loop over the pairs of the query, with the role and the token found so far.
unfoldable pub read_pairs : List Text → Option Text → Option Text → Option Text × Option Text
read_pairs [] role token = (role, token)
read_pairs (pair ∷ pairs) role token =
    let skipped = read_pairs pairs role token in
    let (key, value) = cut pair in
    let as_role = read_pairs pairs (some value) token in
    let as_token = read_pairs pairs role (some value) in
    if is_empty pair
    then skipped
    else if text_eq key (codes "role")
    then as_role
    else if text_eq key (codes "token")
    then as_token
    else skipped

abbrev pub read_query : Option Text → Option Text × Option Text
read_query none = (none, none)
read_query (some query) = read_pairs (split query) none none

abbrev pub role_of : Option Text → Option ConnectionRole
role_of none = none
role_of (some name) =
    if text_eq name (codes "daemon")
    then some daemon
    else if text_eq name (codes "client")
    then some client
    else none

abbrev pub admit : Text → ConnectionRole → Outcome (Unit {0}) → Parsed
admit session_id role (ok u) = accepted (record { session_id = session_id; role = role })
admit session_id role (err message) = refused 401 message
admit session_id role panic = refused 500 []

abbrev pub with_role : RelayAuth → Text → Option ConnectionRole → Option Text → Parsed
with_role auth session_id none token =
    refused 400 (codes "role must be either 'daemon' or 'client'")
with_role auth session_id (some role) token = admit session_id role (authorize auth role token)

abbrev pub with_session : RelayAuth → Option Text → Option Text × Option Text → Parsed
with_session auth none (role, token) = refused 404 (codes "expected /ws/{session_id}")
with_session auth (some []) (role, token) = refused 404 (codes "expected /ws/{session_id}")
with_session auth (some (c ∷ id)) (role, token) = with_role auth (c ∷ id) (role_of role) token

unfoldable pub parse_request : Text → Option Text → RelayAuth → Parsed
parse_request path query auth =
    with_session auth (strip_prefix (codes "/ws/") path) (read_query query)

-- `fresh` is the answer of `Uuid::new_v4()`.
unfoldable pub register : ConnectionRole → Text → ℕ → ℕ → RoutingTable → Option ℕ × RoutingTable
register daemon session_id fresh tx table = (none, attach_daemon session_id tx table)
register client session_id fresh tx table = (some fresh, attach_client session_id fresh tx table)

unfoldable pub unregister : ConnectionRole → Text → Option ℕ → RoutingTable → RoutingTable
unregister daemon session_id client_id table = detach_daemon session_id table
unregister client session_id none table = table
unregister client session_id (some client_id) table = detach_client session_id client_id table

split-one : (s : Text) → any (λ c. c == 38) s ≡ false → split s ≡ s ∷ []
unfolding split
split-one [] h = refl
split-one (c ∷ s) h = elim (Bool-cases (c == 38)) [
  | inl hit ↦ absurd (ground arith)
  | inr miss ↦ rw (miss, split-one s (ground arith)) refl
]

-- What the daemon's address says, as the relay reads it.
abbrev pub ws_path : RelayClientConfig → Text
ws_path config = codes "/ws/" ++ config.session_id

abbrev pub ws_query : RelayClientConfig → Text
ws_query config = codes "role=daemon" ++ token_part config.api_key

read_query-ws_query :
    (key : Text)
    → any (λ c. c == 38) key ≡ false
    → read_query (some (codes "role=daemon" ++ token_part (some key)))
      ≡ (some (codes "daemon"), some key)
unfolding read_pairs split cut text_eq
read_query-ws_query key plain = rw (split-one key plain) refl

read_query-no_token :
    read_query (some (codes "role=daemon" ++ token_part none)) ≡ (some (codes "daemon"), none)
unfolding read_pairs split cut text_eq
read_query-no_token = refl

-- The daemon's address is the url, the path, a question mark and the query.
pub address :
    (config : RelayClientConfig)
    → build_ws_url config
      ≡ trim_end_slashes config.url ++ (ws_path config ++ (codes "?" ++ ws_query config))
unfolding build_ws_url
address config =
    append_assoc_lem (trim_end_slashes config.url)
      (codes "/ws/" ++ (config.session_id ++ codes "?role=daemon")) (token_part config.api_key)
    ∙ ap (λ l. trim_end_slashes config.url ++ (codes "/ws/" ++ l))
        (append_assoc_lem config.session_id (codes "?role=daemon") (token_part config.api_key))

read_query-query :
    (key : Option Text)
    → any (λ c. c == 38) (unwrap_or key []) ≡ false
    → read_query (some (codes "role=daemon" ++ token_part key)) ≡ (some (codes "daemon"), key)
read_query-query none plain = read_query-no_token
read_query-query (some key) plain = read_query-ws_query key plain

admitted :
    (auth : RelayAuth) (id : Text) (token : Option Text)
    → id ≢ []
    → authorize auth daemon token ≡ ok tt
    → with_session auth (some id) (some (codes "daemon"), token)
      ≡ accepted (record { session_id = id; role = daemon })
unfolding text_eq
admitted auth [] token named allowed = absurd (named refl)
admitted auth (c ∷ id) token named allowed = rw allowed refl

parse_request-eq :
    (auth : RelayAuth) (id : Text) (key : Option Text)
    → parse_request (codes "/ws/" ++ id) (some (codes "role=daemon" ++ token_part key)) auth
      ≡ with_session auth (some id) (read_query (some (codes "role=daemon" ++ token_part key)))
unfolding parse_request strip_prefix
parse_request-eq auth id key = refl

pub parse_request-ws_query :
    (config : RelayClientConfig) (auth : RelayAuth)
    → config.session_id ≢ []
    → any (λ c. c == 38) (unwrap_or config.api_key []) ≡ false
    → authorize auth daemon config.api_key ≡ ok tt
    → parse_request (ws_path config) (some (ws_query config)) auth
      ≡ accepted (record { session_id = config.session_id; role = daemon })
parse_request-ws_query config auth named plain allowed =
    parse_request-eq auth config.session_id config.api_key
    ∙ ap (with_session auth (some config.session_id)) (read_query-query config.api_key plain)
    ∙ admitted auth config.session_id config.api_key named allowed
