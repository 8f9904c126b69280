-- ===== src/Fetch/Config.antt =====
-- Config and NewFetcherServiceWithConfig of internal/fetch/fetcher.go.
use source_rudder.Prelude.{arith, if◌then◌else◌, ℤ, pos, ◌<ℤ◌, leb_ℤ, Text, bytes, is_empty}

pub record Config : Type 0 where
  pub user_agent : Text
  pub timeout_ms : ℤ
  pub max_redirects : ℤ
  pub max_attempts : ℤ
  pub base_backoff : ℤ

abbrev pub millisecond : ℤ
millisecond = pos 1000000

abbrev or_default : ℤ → ℤ → ℤ
or_default x d = if leb_ℤ x (pos 0) then d else x

-- The defaults that the constructor fills in.
unfoldable pub with_defaults : Config → Config
with_defaults c = record {
  user_agent = if is_empty c.user_agent then bytes "SourceRudder/3.0.0" else c.user_agent;
  timeout_ms = or_default c.timeout_ms (pos 30000);
  max_redirects = or_default c.max_redirects (pos 5);
  max_attempts = or_default c.max_attempts (pos 3);
  base_backoff = or_default c.base_backoff (pos 200000000);
}

-- Every number of the configuration is positive.
pub record IsUsable (c : Config) : Type 0 where
  pub timeout_positive : pos 0 <ℤ c.timeout_ms
  pub redirects_positive : pos 0 <ℤ c.max_redirects
  pub attempts_positive : pos 0 <ℤ c.max_attempts
  pub backoff_positive : pos 0 <ℤ c.base_backoff

-- Whatever configuration the constructor is given, each of the numbers of the one that it uses is
-- positive.
pub with_defaults-IsUsable : (c : Config) → IsUsable (with_defaults c)
unfolding with_defaults
with_defaults-IsUsable c = ground arith
