-- ===== src/Commands.antt =====
-- cmd/sourcerudder/main.go: what main makes of its flags and its environment. The environment,
-- strconv.Atoi and strings.TrimSpace are parameters.
pub mod Settings
use source_rudder.Prelude.{
  not, Option, none, some, [], if◌then◌else◌, ℤ, pos, ◌*ℤ◌, ltb_ℤ, Text, bytes, is_empty,
}
use source_rudder.Fetch.Config.{Config, millisecond}

pub record Process : Type 0 where
  pub lookup_env : Text → Option Text
  pub atoi : Text → Option ℤ
  pub trim_space : Text → Text

-- The default of -fetch-timeout-ms.
abbrev pub default_fetch_timeout_ms : ℤ
default_fetch_timeout_ms = pos 30000

module _ (proc : Process) where
  unfoldable pub env_default : Text → Text → Text
  env_default name fallback = elim (proc.lookup_env name) [
    | none ↦ fallback
    | some v ↦ if is_empty v then fallback else v
  ]

  unfoldable pub env_int : Text → ℤ → ℤ
  env_int name fallback = elim (proc.lookup_env name) [
    | none ↦ fallback
    | some v ↦ if is_empty v then fallback else elim (proc.atoi v) [ none ↦ fallback | some n ↦ n ]
  ]

  unfoldable pub build_fetch_config : ℤ → Config
  build_fetch_config flag_timeout_ms = record {
    user_agent =
        env_default (bytes "FETCH_USER_AGENT") (bytes "SourceRudder/3.0.0 (anonymous-only)");
    timeout_ms =
        if ltb_ℤ (pos 0) flag_timeout_ms
        then flag_timeout_ms
        else env_int (bytes "FETCH_TIMEOUT_MS") (pos 30000);
    max_redirects = env_int (bytes "FETCH_MAX_REDIRECTS") (pos 5);
    max_attempts = env_int (bytes "FETCH_MAX_ATTEMPTS") (pos 3);
    base_backoff = pos 200 *ℤ millisecond;
  }

  unfoldable pub resolve_local_index_path : Text → Text
  resolve_local_index_path flag =
      let path = proc.trim_space flag in
      if not (is_empty path)
      then path
      else proc.trim_space (env_default (bytes "LOCAL_INDEX_PATH") [])

  unfoldable pub resolve_auth_key : Text → Text
  resolve_auth_key flag =
      if not (is_empty flag) then flag else elim (proc.lookup_env (bytes "SOURCERUDDER_AUTH_KEY")) [
        | none ↦ []
        | some raw ↦ proc.trim_space raw
      ]
