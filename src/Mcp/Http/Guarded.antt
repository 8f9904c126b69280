-- ===== src/Mcp/Http/Guarded.antt =====
-- What an HTTP request without the right credentials changes, and how it is answered.
use source_rudder.Prelude.{
  ℕ, ◌≡◌, refl, ◌⊎◌, inl, inr, ◌||◌, Option, none, some, [], ◌∷◌, arith, ◌==◌, if◌then◌else◌,
  Bool-cases, Option-cases, Text, bytes, text_eq,
}
use source_rudder.Auth.{Validator, Verdict, rejected, admitted, new_validator, middleware}
use source_rudder.Auth.Gate.{NoCollision, middleware_iff}
use source_rudder.Mcp.Recorder.{write_header}
use source_rudder.Mcp.State.{Server, State, Outside}
use source_rudder.Mcp.Rpc.{Params}
use source_rudder.Mcp.Http.{
  HttpRequest, HttpAnswer, healthy, not_found, unauthorized, moved, effective_validator,
  recorded_status, count_request, route, handler,
}

Verdict-cases : (v : Verdict) → ((body : Text) × (v ≡ rejected body)) ⊎ (v ≡ admitted)
Verdict-cases (rejected body) = inl (body, refl)
Verdict-cases admitted = inr refl

-- The answers that no protected route gives, and their statuses.
abbrev pub IsOutside : HttpRequest → HttpAnswer → ℕ → Type 0
IsOutside req answer status =
    ((answer ≡ healthy) × (status ≡ 200))
    ⊎ ((answer ≡ not_found) × (status ≡ 404))
    ⊎ ((body : Text) × (answer ≡ unauthorized body) × (status ≡ 401))
    ⊎ ((n : ℕ) × (location : Text) × (req.mux_answer ≡ some (n, location))
        × (answer ≡ moved n location)
        × (status ≡ (if n == 0 then 200 else n)))

-- What becomes of a request that no protected route has seen: it is counted, and nothing else.
pub record Shut {S : Type 0} (st : State S) (req : HttpRequest) (x : State S × HttpAnswer)
    : Type 0 where
  pub status : ℕ
  pub counted :
      x.0 ≡ record st { http_requests = (req.method, (req.path, status)) ∷ st.http_requests }
  pub answer : IsOutside req x.1 status

module _ {S : Type 0} (o : Outside S) (p : Params) (s : Server S) (hmac : Text → Text → Text) where
  -- The answer of the root mux, without the count.
  Unseen : State S → HttpRequest → State S × HttpAnswer → Type 0
  Unseen st req x = (x.0 ≡ st) × IsOutside req x.1 (recorded_status x.1)

  moved-status :
      (n : ℕ) (location : Text) → recorded_status (moved n location) ≡ (if n == 0 then 200 else n)
  unfolding recorded_status write_header
  moved-status n location = refl

  route-Unseen :
      (configured : Option Validator) (random body : Text) (st : State S) (req : HttpRequest)
      → middleware hmac (some (effective_validator o p s hmac configured random)) req.credentials
        ≡ rejected body
      → Unseen st req (route o p s hmac configured random st req)
  unfolding route Unseen recorded_status write_header
  route-Unseen configured random body st req h = elim (Option-cases req.mux_answer) [
    | inr ((n, location), m) ↦
        rw (route, m) (refl, inr (inr (inr (n, location, refl, refl, moved-status n location))))
    | inl m ↦ elim (Bool-cases (text_eq req.path (bytes "/healthz"))) [
      | inl a ↦ rw (route, m, a) (refl, inl (refl, refl))
      | inr a ↦
          elim (Bool-cases
            (text_eq req.path (bytes "/mcp") || text_eq req.path (bytes "/metrics"))) [
              | inl b ↦ rw (route, m, a, b, h) (refl, inr (inr (inl (body, refl, refl))))
              | inr b ↦ rw (route, m, a, b) (refl, inr (inl (refl, refl)))
            ]
    ]
  ]

  handler-Shut_of_rejected :
      (configured : Option Validator) (random body : Text) (st : State S) (req : HttpRequest)
      → middleware hmac (some (effective_validator o p s hmac configured random)) req.credentials
        ≡ rejected body
      → Shut st req (handler o p s hmac configured random st req)
  unfolding handler count_request Unseen
  handler-Shut_of_rejected configured random body st req h =
      let (same, answer) = route-Unseen configured random body st req h in
      record {
        status = recorded_status (route o p s hmac configured random st req).1;
        counted = rw same refl;
        answer = answer;
      }

  -- When no key but the empty one has the code of the empty one under the verification key, a
  -- server without a configured validator counts any HTTP request and changes nothing else, and
  -- answers by the health page, by 404, by 401 or by what http.ServeMux answers by itself.
  pub unconfigured-Shut :
      (random : Text) (st : State S) (req : HttpRequest)
      → NoCollision hmac random []
      → Shut st req (handler o p s hmac none random st req)
  unfolding effective_validator
  unconfigured-Shut random st req n =
      elim (Verdict-cases (middleware hmac (some (new_validator hmac random [])) req.credentials)) [
        | inl (body, v) ↦ handler-Shut_of_rejected none random body st req v
        | inr v ↦ absurd (ground (arith, ((middleware_iff hmac random [] req.credentials n).0 v).1))
      ]
