-- ===== src/Auth/Tests.antt =====
-- The middleware with a code that is the key itself.
use source_rudder.Prelude.{◌≡◌, ◌↔◌, false, some, [], Text, bytes, is_empty}
use source_rudder.Auth.{Credentials, admitted, extract_key, new_validator, middleware}
use source_rudder.Auth.Gate.{middleware_iff}

abbrev plain : Text → Text → Text
plain random key = key

abbrev bearer : Credentials
bearer = record { x_api_key = []; authorization = bytes "Bearer secret" }

middleware_example :
    (middleware plain (some (new_validator plain (bytes "random") (bytes "secret"))) bearer
      ≡ admitted)
    ↔ ((extract_key bearer ≡ bytes "secret") × (is_empty (bytes "secret") ≡ false))
middleware_example = middleware_iff plain (bytes "random") (bytes "secret") bearer (λ _ h. h)
