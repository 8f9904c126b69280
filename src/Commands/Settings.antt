-- ===== src/Commands/Settings.antt =====
-- What the settings of main mean for the server and for the fetch engine.
use source_rudder.Prelude.{
  ◌≡◌, ◌⊎◌, true, none, some, [], arith, ℤ, pos, ◌<ℤ◌, Text, bytes, is_empty,
}
use source_rudder.Fetch.Config.{IsUsable, with_defaults, with_defaults-IsUsable}
use source_rudder.Mcp.State.{State}
use source_rudder.Commands.{Process, build_fetch_config}

-- No key is configured: none in the flag, and none but white space in the environment.
abbrev pub IsKeyless : Process → Text → Type 0
IsKeyless proc flag =
    (is_empty flag ≡ true)
    × ((proc.lookup_env (bytes "SOURCERUDDER_AUTH_KEY") ≡ none)
        ⊎ ((raw : Text) × (proc.lookup_env (bytes "SOURCERUDDER_AUTH_KEY") ≡ some raw)
            × (proc.trim_space raw ≡ [])))

timeout_kept :
    (proc : Process) (flag : ℤ)
    → pos 0 <ℤ flag
    → (with_defaults (build_fetch_config proc flag)).timeout_ms ≡ flag
unfolding with_defaults build_fetch_config
timeout_kept proc flag h = ground (arith, h)

-- A positive flag is the timeout of the engine, whatever the environment says.
pub flag_timeout_wins :
    (proc : Process) (flag : ℤ)
    → pos 0 <ℤ flag
    → ((with_defaults (build_fetch_config proc flag)).timeout_ms ≡ flag)
      × IsUsable (with_defaults (build_fetch_config proc flag))
flag_timeout_wins proc flag h =
    (timeout_kept proc flag h, with_defaults-IsUsable (build_fetch_config proc flag))
