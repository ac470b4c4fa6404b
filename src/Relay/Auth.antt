-- ===== src/Relay/Auth.antt =====
-- Who may connect to the relay (caterm-relay/src/auth.rs).
use caterm.Prelude.{
  ℕ, Bool, not, ◌&&◌, ◌||◌, Option, none, some, [], ◌∷◌, ◌++◌, ◌==◌, leb, map_opt, filter_opt,
  is_empty, if◌then◌else◌, ◌≡◌, refl, ◌⊎◌, ◌↔◌, inl, inr, arith, Bool-cases, ap,
}
use caterm.Text.{Text, codes, text_eq}
use caterm.Text.Laws.{text_eq_sound, text_eq_refl}
use caterm.Outcome.{Outcome, ok, err}

pub data ConnectionRole : Type 0 where
  daemon client : ConnectionRole

pub record RelayAuth : Type 0 where
  pub daemon_api_key : Option Text
  pub client_share_token : Option Text

-- Unicode's `White_Space`.
unfoldable pub is_whitespace : ℕ → Bool
is_whitespace c =
    (leb 9 c && leb c 13)
    || c == 32
    || c == 133
    || c == 160
    || c == 5760
    || (leb 8192 c && leb c 8202)
    || c == 8232
    || c == 8233
    || c == 8239
    || c == 8287
    || c == 12288

unfoldable pub trim_start : Text → Text
trim_start [] = []
trim_start (c ∷ s) = let rest = trim_start s in if is_whitespace c then rest else c ∷ s

unfoldable pub trim_end : Text → Text
trim_end [] = []
trim_end (c ∷ s) =
    let rest = trim_end s in if is_empty rest && is_whitespace c then [] else c ∷ rest

-- `str::trim`
abbrev pub trim : Text → Text
trim s = trim_end (trim_start s)

-- The argument is what `std::env::var(var).ok()` gives.
unfoldable pub read_secret : Option Text → Option Text
read_secret var = filter_opt (λ value. not (is_empty value)) (map_opt trim var)

unfoldable pub from_env : Option Text → Option Text → RelayAuth
from_env api_key share_token = record {
  daemon_api_key = read_secret api_key;
  client_share_token = read_secret share_token;
}

unfoldable pub validate_token : Text → Option Text → Text → Outcome (Unit {0})
validate_token expected none label = err (codes "missing " ++ label)
validate_token expected (some candidate) label =
    if text_eq candidate expected then ok tt else err (codes "invalid " ++ label)

abbrev pub check : Option Text → Option Text → Text → Outcome (Unit {0})
check none token label = ok tt
check (some expected) token label = validate_token expected token label

unfoldable pub authorize : RelayAuth → ConnectionRole → Option Text → Outcome (Unit {0})
authorize auth daemon token = check auth.daemon_api_key token (codes "daemon API key")
authorize auth client token = check auth.client_share_token token (codes "share token")

-- The secret that a role is asked for.
abbrev pub secret_of : RelayAuth → ConnectionRole → Option Text
secret_of auth daemon = auth.daemon_api_key
secret_of auth client = auth.client_share_token

no_token :
    {expected : Text}
    → (some expected ≡ none) ⊎ ((t : Text) × (some expected ≡ some t) × (none ≡ some t))
    → ⊥
no_token (inl e) = cc
no_token (inr (t, e, e')) = cc

check_lem :
    (secret token : Option Text) (label : Text)
    → check secret token label ≡ ok tt
      ↔ ((secret ≡ none) ⊎ ((t : Text) × (secret ≡ some t) × (token ≡ some t)))
unfolding validate_token
check_lem none token label = (λ h. inl refl, λ h. refl)
check_lem (some expected) none label = (λ h. cc, λ h. absurd (no_token h))
check_lem (some expected) (some candidate) label = (
  λ h. elim (Bool-cases (text_eq candidate expected)) [
    | inl same ↦ inr (expected, refl, ap (λ t. some t) (text_eq_sound candidate expected same))
    | inr other ↦ absurd (ground arith)
  ],
  λ h. matching h,
)
  where
    matching :
        (some expected ≡ none) ⊎ ((t : Text) × (some expected ≡ some t) × (some candidate ≡ some t))
        → check (some expected) (some candidate) label ≡ ok tt
    matching (inl e) = cc
    matching (inr (t, e, e')) = ground (arith, text_eq_refl candidate)

-- A connection is let in exactly when its role has no secret or it brings that secret.
pub authorize_lem :
    (auth : RelayAuth) (role : ConnectionRole) (token : Option Text)
    → authorize auth role token ≡ ok tt ↔ (
        (secret_of auth role ≡ none)
        ⊎ ((t : Text) × (secret_of auth role ≡ some t) × (token ≡ some t)))
unfolding authorize
authorize_lem auth daemon token = check_lem auth.daemon_api_key token (codes "daemon API key")
authorize_lem auth client token = check_lem auth.client_share_token token (codes "share token")
