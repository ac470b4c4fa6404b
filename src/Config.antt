-- ===== src/Config.antt =====
-- The configuration of the daemon (caterm/src/config.rs) and the default socket path (server.rs). The
-- environment is a function from names to values, and the file system is the test of existence.
pub mod Relay
use caterm.Prelude.{
  ℕ, Bool, true, false, ◌&&◌, ◌||◌, not, Option, none, some, and_then, map_opt, unwrap_or,
  filter_opt, List, [], ◌∷◌, ◌++◌, is_empty, if◌then◌else◌, ◌≡◌, refl, ◌↔◌, arith, ap,
}
use caterm.Text.{Text, codes, ends_with}
use caterm.Relay.Auth.{trim, trim_start, trim_end}
use caterm.Relay.Client.{RelayClientConfig}

abbrev pub default_cols : ℕ
default_cols = 120

abbrev pub default_rows : ℕ
default_rows = 32

pub record DaemonConfig : Type 0 where
  pub shell : Text
  pub cols : ℕ
  pub rows : ℕ
  pub log_file : Option Text
  pub relay : Option RelayClientConfig

-- `env::var(name).ok()`
abbrev pub Env : Type 0
Env = Text → Option Text

-- The trimmed text, unless nothing is left of it.
abbrev pub filled : Text → Option Text
filled text = let trimmed = trim text in if is_empty trimmed then none else some trimmed

module _ (env : Env) where
  -- A shell of its own, as it stands there; or the user's, if it exists.
  unfoldable pub resolve_shell : (Text → Bool) → Text
  resolve_shell exists =
      unwrap_or (filter_opt (λ shell. not (is_empty (trim shell))) (env (codes "CATERM_SHELL")))
        (unwrap_or (filter_opt exists (env (codes "SHELL"))) (codes "/bin/bash"))

  unfoldable pub resolve_relay : Option RelayClientConfig
  resolve_relay = and_then (and_then (env (codes "CATERM_RELAY_URL")) filled) (λ url.
      and_then (and_then (env (codes "CATERM_RELAY_SESSION_ID")) filled) (λ session_id.
        some (record {
          url = url;
          session_id = session_id;
          api_key =
              filter_opt (λ value. not (is_empty value))
                (map_opt trim (env (codes "CATERM_RELAY_API_KEY")));
        })))

  unfoldable pub resolve_log_file : Option Text
  resolve_log_file = and_then (env (codes "CATERM_LOG_FILE")) filled

  unfoldable pub from_env : (Text → Bool) → DaemonConfig
  unfolding resolve_shell resolve_relay resolve_log_file
  from_env exists = record {
    shell = resolve_shell exists;
    cols = default_cols;
    rows = default_rows;
    log_file = resolve_log_file;
    relay = resolve_relay;
  }

  -- `temp_dir` is the answer of `env::temp_dir()`, which `join` puts in front with one slash between.
  unfoldable pub default_socket_path : Text → Text
  default_socket_path temp_dir =
      let name =
        codes "caterm-" ++ (unwrap_or (env (codes "USER")) (codes "default") ++ codes ".sock") in
      let joined =
        if ends_with (codes "/") temp_dir
        then temp_dir ++ name
        else temp_dir ++ (codes "/" ++ name) in
      unwrap_or (and_then (env (codes "CATERM_SOCKET")) filled) joined
