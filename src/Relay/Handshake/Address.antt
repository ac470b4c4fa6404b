-- ===== src/Relay/Handshake/Address.antt =====
-- The daemon's address (caterm/src/relay.rs) at the relay's handshake (caterm-relay/src/main.rs). The
-- libraries between them, tungstenite and http, are a parameter.
use caterm.Prelude.{
  ℕ, Bool, true, ◌||◌, ◌&&◌, Option, none, some, [], ◌∷◌, ◌++◌, ◌==◌, leb, ltb, any, all,
  if◌then◌else◌, ◌≡◌, ◌≢◌,
}
use caterm.Text.{Text, codes}
use caterm.Text.Decimal.{to_string}
use caterm.Relay.Auth.{RelayAuth}
use caterm.Relay.Handshake.{Parsed, parse_request}

-- The characters of RFC 3986 that stand for themselves: `unreserved`, `sub-delims` and `pchar` without
-- percent signs.
abbrev pub is_unreserved : ℕ → Bool
is_unreserved c =
    (leb 48 c && leb c 57)
    || (leb 65 c && leb c 90)
    || (leb 97 c && leb c 122)
    || any (λ d. d == c) (codes "-._~")

abbrev pub is_pchar : ℕ → Bool
is_pchar c = is_unreserved c || any (λ d. d == c) (codes "!$&'()*+,;=:@")

abbrev pub is_path : ℕ → Bool
is_path c = is_pchar c || c == 47

abbrev pub is_query : ℕ → Bool
is_query c = is_path c || c == 63

abbrev pub port_part : Option ℕ → Text
port_part none = []
port_part (some port) = codes ":" ++ to_string port

-- The scheme, a host and perhaps a port.
abbrev pub origin : Bool → Text → Option ℕ → Text
origin secure host port =
    (if secure then codes "wss://" else codes "ws://") ++ (host ++ port_part port)

abbrev pub is_port : Option ℕ → Bool
is_port none = true
is_port (some port) = ltb port 65536

-- What the relay's library answers for the path and the query of a request that the daemon's library
-- has sent to an address. Of an address that RFC 3986 allows without escapes these are what stands
-- before and behind its first question mark.
pub record UriLibrary : Type 0 where
  pub path_and_query : Text → Text × Option Text
  pub splits :
      (secure : Bool) (host : Text) (port : Option ℕ) (path query : Text)
      → host ≢ []
      → all is_unreserved host ≡ true
      → is_port port ≡ true
      → all is_path path ≡ true
      → all is_query query ≡ true
      → path_and_query (origin secure host port ++ ((47 ∷ path) ++ (codes "?" ++ query)))
        ≡ (47 ∷ path, some query)

abbrev pub connect : UriLibrary → Text → RelayAuth → Parsed
connect library url auth =
    let (path, query) = library.path_and_query url in parse_request path query auth
