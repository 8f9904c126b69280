-- ===== src/Auth/Gate.antt =====
-- Whom the middleware lets in.
use source_rudder.Prelude.{◌≡◌, ◌↔◌, false, some, arith, Text, text_eq_iff, is_empty}
use source_rudder.Auth.{Credentials, admitted, extract_key, new_validator, key_mac, middleware}

-- No other key than the configured one has its code under the verification key.
abbrev pub NoCollision : (Text → Text → Text) → Text → Text → Type 0
NoCollision hmac random api_key =
    (key : Text) → hmac random key ≡ hmac random api_key → key ≡ api_key

-- When no other key has the code of the configured one under the verification key, a request is
-- let through exactly if the key that it presents is the configured one and that is not empty.
pub middleware_iff :
    (hmac : Text → Text → Text) (random api_key : Text) (c : Credentials)
    → NoCollision hmac random api_key
    → (middleware hmac (some (new_validator hmac random api_key)) c ≡ admitted)
      ↔ ((extract_key c ≡ api_key) × (is_empty api_key ≡ false))
unfolding middleware new_validator key_mac
middleware_iff hmac random api_key c h =
    ground
      (arith, h (extract_key c), text_eq_iff (hmac random (extract_key c)) (hmac random api_key))
