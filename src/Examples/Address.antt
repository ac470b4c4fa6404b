-- ===== src/Examples/Address.antt =====
-- Libraries that split addresses at the first slash and the first question mark, and daemons at the
-- relay behind them.
use caterm.Prelude.{
  Bool-cases, inl, inr, arith, All, not, ap, ◌∙◌, ℕ, true, false, ◌&&◌, Option, none, some, [], ◌∷◌,
  ◌++◌, ◌==◌, any, all, unwrap_or, if◌then◌else◌, ◌≡◌, ◌≢◌, refl, arith, Bool,
}
use caterm.Text.Decimal.{digits, to_string}
use caterm.Text.Decimal.RoundTrip.{IsDigit, digits-All}
use caterm.Text.{Text, codes, text_eq}
use caterm.Config.{Env}
use caterm.Relay.Auth
use caterm.Relay.Auth.{RelayAuth, trim_start, trim_end, is_whitespace, read_secret}
use caterm.Relay.Client.{RelayClientConfig, build_ws_url, trim_end_slashes}
use caterm.Relay.Handshake.{refused, parse_request, strip_prefix, read_pairs, split, cut}
use caterm.Relay.Handshake.Address.{
  UriLibrary, origin, is_unreserved, is_port, port_part, is_path, is_query, connect,
}

-- From the first slash on.
abbrev from_slash : Text → Text
from_slash [] = []
from_slash (c ∷ s) = let rest = from_slash s in if c == 47 then c ∷ s else rest

abbrev before_query : ℕ → Text × Option Text → Text × Option Text
before_query c (path, query) = (c ∷ path, query)

abbrev at_question : Text → Text × Option Text
at_question [] = ([], none)
at_question (c ∷ s) =
    let later = before_query c (at_question s) in if c == 63 then ([], some s) else later

abbrev behind_one : Text → Text
behind_one [] = []
behind_one (c ∷ s) = s

-- What stands behind ws:// or wss://, told by whether the third character is a colon.
abbrev behind_scheme : Text → Text
behind_scheme (a ∷ b ∷ c ∷ d ∷ e ∷ s) = if c == 58 then s else behind_one s
behind_scheme s = []

abbrev split_address : Text → Text × Option Text
split_address url = at_question (from_slash (behind_scheme url))

-- There is no slash in the text.
abbrev slashless : Text → Bool
slashless s = not (any (λ c. c == 47) s)

no_question : (c : ℕ) → is_path c ≡ true → (c == 63) ≡ false
no_question c h = ground arith

split_and : (a b : Bool) → (a && b) ≡ true → (a ≡ true) × (b ≡ true)
split_and true b h = (refl, h)
split_and false b h = absurd (ground arith)

from_slash-slashless :
    (s rest : Text) → slashless s ≡ true → from_slash (s ++ 47 ∷ rest) ≡ 47 ∷ rest
from_slash-slashless [] rest h = refl
from_slash-slashless (c ∷ s) rest h = elim (Bool-cases (c == 47)) [
  | inl hit ↦ absurd (ground arith)
  | inr miss ↦ rw (miss, from_slash-slashless s rest (ground arith)) refl
]

slashless-append :
    (s t : Text) → slashless s ≡ true → slashless t ≡ true → slashless (s ++ t) ≡ true
slashless-append [] t h k = k
slashless-append (c ∷ s) t h k = ground (arith, slashless-append s t (ground arith) k)

slashless-host : (host : Text) → all is_unreserved host ≡ true → slashless host ≡ true
slashless-host [] h = refl
slashless-host (c ∷ s) h =
    let (first, later) = split_and (is_unreserved c) (all is_unreserved s) h in
    ground (arith, first, slashless-host s later)

slashless-digits : (s : Text) → All IsDigit s → slashless s ≡ true
slashless-digits [] h = refl
slashless-digits (c ∷ s) h = ground (arith, slashless-digits s h.1)

slashless-port : (port : Option ℕ) → slashless (port_part port) ≡ true
unfolding to_string
slashless-port none = refl
slashless-port (some port) = slashless-digits (digits 20 port) (digits-All 20 port)

at_question-path :
    (path query : Text)
    → all is_path path ≡ true
    → at_question (path ++ 63 ∷ query) ≡ (path, some query)
at_question-path [] query h = refl
at_question-path (c ∷ s) query h =
    let (first, later) = split_and (is_path c) (all is_path s) h in
    rw (no_question c first, at_question-path s query later) refl

behind_scheme-origin :
    (secure : Bool) (host rest : Text) (port : Option ℕ)
    → behind_scheme (origin secure host port ++ rest) ≡ (host ++ port_part port) ++ rest
behind_scheme-origin true host rest port = refl
behind_scheme-origin false host rest port = refl

split_address-splits :
    (secure : Bool) (host : Text) (port : Option ℕ) (path query : Text)
    → host ≢ []
    → all is_unreserved host ≡ true
    → is_port port ≡ true
    → all is_path path ≡ true
    → all is_query query ≡ true
    → split_address (origin secure host port ++ ((47 ∷ path) ++ (codes "?" ++ query)))
      ≡ (47 ∷ path, some query)
split_address-splits secure host port path query hosted letters ported segment key =
    let plain =
      slashless-append host (port_part port) (slashless-host host letters) (slashless-port port) in
    ap (λ s. at_question (from_slash s))
      (behind_scheme-origin secure host ((47 ∷ path) ++ (codes "?" ++ query)) port)
    ∙ ap at_question (from_slash-slashless (host ++ port_part port) (path ++ 63 ∷ query) plain)
    ∙ ap (before_query 47) (at_question-path path query segment)

abbrev library : UriLibrary
library = record { path_and_query = split_address; splits = split_address-splits }

abbrev auth : RelayAuth
auth = record { daemon_api_key = some (codes "key"); client_share_token = none }

abbrev relay_config : RelayClientConfig
relay_config = record {
  url = codes "wss://relay.example:443";
  session_id = codes "home";
  api_key = some (codes "key");
}

abbrev env : Env
env name =
    if text_eq name (codes "CATERM_RELAY_URL")
    then some (codes " wss://relay.example:443 ")
    else if text_eq name (codes "CATERM_RELAY_SESSION_ID")
    then some (codes "home")
    else if text_eq name (codes "CATERM_RELAY_API_KEY")
    then some (codes "key ")
    else none

letters : all is_query (unwrap_or (read_secret (env (codes "CATERM_RELAY_API_KEY"))) []) ≡ true
unfolding read_secret text_eq trim_start trim_end is_whitespace
letters = refl

plain : any (λ c. c == 38) (unwrap_or (read_secret (env (codes "CATERM_RELAY_API_KEY"))) []) ≡ false
unfolding read_secret text_eq trim_start trim_end is_whitespace
plain = refl

-- A session id with a question mark: the relay reads the path and the query elsewhere, and refuses.
question_mark :
    connect library (build_ws_url (record relay_config { session_id = codes "a?b" })) auth
    ≡ refused 400 (codes "role must be either 'daemon' or 'client'")
unfolding build_ws_url trim_end_slashes parse_request strip_prefix read_pairs split cut text_eq
question_mark = refl
