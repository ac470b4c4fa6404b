-- ===== src/Relay/Client.antt =====
-- The daemon's connection to the relay (caterm/src/relay.rs): its address and its retries.
use caterm.Prelude.{
  ℕ, zero, suc, ◌*◌, ◌^◌, ◌≤◌, ◌&&◌, Option, none, some, List, [], ◌∷◌, ◌++◌, ◌==◌, min, leb,
  is_empty, if◌then◌else◌, ◌≡◌, refl, arith, Bool-cases, inl, inr, ap, ◌∙◌,
}
use native.Mathlib.Nat.{mul-suc, mul_assoc}
use caterm.Text.{Text, codes}

-- `RelayClientConfig` (caterm/src/config.rs)
pub record RelayClientConfig : Type 0 where
  pub url : Text
  pub session_id : Text
  pub api_key : Option Text

-- `trim_end_matches('/')`; 47 is the slash.
unfoldable pub trim_end_slashes : Text → Text
trim_end_slashes [] = []
trim_end_slashes (c ∷ s) =
    let rest = trim_end_slashes s in if is_empty rest && c == 47 then [] else c ∷ rest

abbrev pub token_part : Option Text → Text
token_part none = []
token_part (some api_key) = codes "&token=" ++ api_key

unfoldable pub build_ws_url : RelayClientConfig → Text
build_ws_url config =
    (trim_end_slashes config.url ++ (codes "/ws/" ++ (config.session_id ++ codes "?role=daemon")))
    ++ token_part config.api_key

-- How a connection has ended.
pub data Ended : Type 0 where
  closed failed : Ended

-- The seconds to wait, from one turn of the loop to the next: `run_connection` has ended as told.
unfoldable pub next_backoff : ℕ → Ended → ℕ
next_backoff backoff closed = 1
next_backoff backoff failed = min (backoff * 2) 30

-- The backoff after the turns of the loop, the first one first.
unfoldable pub backoff_after : ℕ → List Ended → ℕ
backoff_after backoff [] = backoff
backoff_after backoff (ended ∷ later) = backoff_after (next_backoff backoff ended) later

abbrev pub failures : ℕ → List Ended
failures zero = []
failures (suc n) = failed ∷ failures n

trim_end_slashes-slash : (s : Text) → trim_end_slashes (s ++ 47 ∷ []) ≡ trim_end_slashes s
unfolding trim_end_slashes
trim_end_slashes-slash [] = refl
trim_end_slashes-slash (c ∷ s) = rw (trim_end_slashes-slash s) refl

-- A slash at the end of the relay's url does not change the address.
build_ws_url-slash :
    (config : RelayClientConfig)
    → build_ws_url (record config { url = config.url ++ 47 ∷ [] }) ≡ build_ws_url config
unfolding build_ws_url
build_ws_url-slash config = rw (trim_end_slashes-slash config.url) refl

min_scale : (a p : ℕ) → 1 ≤ p → min (min a 30 * p) 30 ≡ min (a * p) 30
min_scale a zero h = absurd (omega arith)
min_scale a (suc q) h = elim (Bool-cases (leb a 30)) [
  | inl small ↦ ap (λ m. min (m * suc q) 30) (ground arith)
  | inr large ↦ grind (arith, mul-suc a q)
]

pow_pos : (n : ℕ) → 1 ≤ 2 ^ n
pow_pos zero = omega arith
pow_pos (suc n) = omega (arith, pow_pos n)

backoff_from : (b n : ℕ) → 1 ≤ b → b ≤ 30 → backoff_after b (failures n) ≡ min (b * 2 ^ n) 30
unfolding backoff_after next_backoff
backoff_from b zero low high = ground arith
backoff_from b (suc n) low high =
    backoff_from (min (b * 2) 30) n (omega arith) (omega arith)
    ∙ min_scale (b * 2) (2 ^ n) (pow_pos n)
    ∙ ap (λ m. min m 30) (mul_assoc b 2 (2 ^ n) ∙ ap (λ m. b * m) (omega arith))

-- After `n` failures in a row, on whatever came before them, with the connection closed in between,
-- the loop waits for 2^n seconds, but never for more than 30.
backoff_after-failures : (b n : ℕ) → backoff_after b (closed ∷ failures n) ≡ min (2 ^ n) 30
unfolding backoff_after next_backoff
backoff_after-failures b n =
    backoff_from 1 n (omega arith) (omega arith) ∙ ap (λ m. min m 30) (omega arith)
