-- ===== src/Auth.antt =====
-- internal/auth/auth.go. HMAC-SHA256 is a parameter, the random verification key an argument.
pub mod Gate
mod Tests
use source_rudder.Prelude.{
  not, Option, none, some, [], if◌then◌else◌, Text, bytes, text_eq, is_empty, has_prefix,
  trim_prefix,
}

pub record Validator : Type 0 where
  pub verification_key : Text
  pub valid_key_mac : Text

-- The two headers that extractKey reads, empty if they are missing.
pub record Credentials : Type 0 where
  pub x_api_key : Text
  pub authorization : Text

-- What the middleware does: it answers 401 with a body, or calls the next handler.
pub data Verdict : Type 0 where
  rejected : Text → Verdict
  admitted : Verdict

unfoldable pub extract_key : Credentials → Text
extract_key c =
    if not (is_empty c.x_api_key)
    then c.x_api_key
    else if has_prefix c.authorization (bytes "Bearer ")
    then trim_prefix c.authorization (bytes "Bearer ")
    else []

module _ (hmac : Text → Text → Text) where
  unfoldable pub key_mac : Text → Text → Text
  key_mac verification_key key = hmac verification_key key

  unfoldable pub new_validator : Text → Text → Validator
  new_validator random api_key = record {
    verification_key = random;
    valid_key_mac = key_mac random api_key;
  }

  unfoldable pub middleware : Option Validator → Credentials → Verdict
  middleware none c = rejected (bytes "auth_not_configured")
  middleware (some v) c =
      let key = extract_key c in
      if is_empty key
      then rejected (bytes "missing_credentials")
      else if not (text_eq (key_mac v.verification_key key) v.valid_key_mac)
      then rejected (bytes "invalid_credentials")
      else admitted
