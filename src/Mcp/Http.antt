-- ===== src/Mcp/Http.antt =====
-- The HTTP surface of internal/mcp/server.go: Handler, HandleHTTP and handleHTTPPost. Paths are told
-- apart as ServeMux does for patterns without a trailing slash, when it does not answer by itself.
pub mod Guarded
use source_rudder.Prelude.{
  ℕ, String, Bool, ◌||◌, not, Option, none, some, List, [], ◌∷◌, ◌==◌, if◌then◌else◌, Text, bytes,
  text_eq,
}
use source_rudder.Types.{Failure, Result, ok, err}
use source_rudder.Auth.{
  Validator, Credentials, Verdict, rejected, admitted, new_validator, middleware,
}
use source_rudder.Mcp.Recorder.{fresh_writer, write_header}
use source_rudder.Mcp.State.{Server, State, Outside}
use source_rudder.Mcp.Rpc.{
  RpcRequest, RpcResponse, Params, is_supported_protocol_version, handle_rpc_request,
}

-- What is read of a request. `versions` are the values of the header MCP-Protocol-Version, `none` if
-- it is missing; `mux_answer` is the status and the Location by which http.ServeMux answers before it looks
-- for a pattern, as it does where a path is not clean; `scraped` is the status of the handler of package
-- promhttp; `body` is what the decoder makes of the body, and `too_large` whether its error is an
-- http.MaxBytesError.
pub record HttpRequest : Type 0 where
  pub method : Text
  pub path : Text
  pub credentials : Credentials
  pub versions : Option (List Text)
  pub mux_answer : Option (ℕ × Text)
  pub scraped : ℕ
  pub body : Result RpcRequest
  pub too_large : Bool

pub data HttpAnswer : Type 0 where
  healthy not_found stream no_content method_not_allowed accepted : HttpAnswer
  unauthorized unsupported_version : Text → HttpAnswer
  parse_failed metrics_page : ℕ → HttpAnswer
  moved : ℕ → Text → HttpAnswer
  rpc : RpcResponse → HttpAnswer

-- The loop over the values of the header: the first that is not supported.
unfoldable pub first_unsupported : List Text → Option Text
first_unsupported [] = none
first_unsupported (v ∷ vs) =
    if is_supported_protocol_version v then first_unsupported vs else some v

-- The status that is sent.
abbrev pub answer_status : HttpAnswer → ℕ
answer_status healthy = 200
answer_status not_found = 404
answer_status stream = 200
answer_status no_content = 204
answer_status method_not_allowed = 405
answer_status accepted = 202
answer_status (metrics_page status) = status
answer_status (unauthorized body) = 401
answer_status (unsupported_version v) = 400
answer_status (parse_failed status) = status
answer_status (moved status location) = status
answer_status (rpc response) = 200

-- The status of the recorder, or 200.
unfoldable pub recorded_status : HttpAnswer → ℕ
recorded_status answer =
    let status = (write_header fresh_writer (answer_status answer)).status in
    if status == 0 then 200 else status

-- RecordHTTPRequest
unfoldable pub count_request : {S : Type 0} → State S → HttpRequest → ℕ → State S
count_request st req status = record st {
  http_requests = (req.method, (req.path, status)) ∷ st.http_requests;
}

abbrev pub is_method : HttpRequest → String → Bool
is_method req name = text_eq req.method (bytes name)

-- The check of the header, for GET and POST only.
unfoldable pub refused_version : HttpRequest → Option Text
refused_version req =
    if is_method req "GET" || is_method req "POST"
    then elim (req.versions) [ none ↦ none | some vs ↦ first_unsupported vs ]
    else none

module _ {S : Type 0} (o : Outside S) (p : Params) (s : Server S) where
  unfoldable pub handle_http_post : State S → HttpRequest → State S × HttpAnswer
  handle_http_post st req = elim (req.body) [
    | err e ↦ (st, parse_failed (if req.too_large then 413 else 400))
    | ok call ↦
        let (t, response) = handle_rpc_request o p s st call in
        (t, elim response [ none ↦ accepted | some r ↦ rpc r ])
  ]

  unfoldable pub handle_http : State S → HttpRequest → State S × HttpAnswer
  handle_http st req = elim (refused_version req) [
    | some v ↦ (st, unsupported_version v)
    | none ↦
        if is_method req "GET"
        then (st, stream)
        else if is_method req "POST"
        then handle_http_post st req
        else if is_method req "OPTIONS"
        then (st, no_content)
        else (st, method_not_allowed)
  ]

  module _ (hmac : Text → Text → Text) where
    -- The routes behind the middleware.
    unfoldable pub protected : State S → HttpRequest → State S × HttpAnswer
    protected st req =
        if text_eq req.path (bytes "/mcp")
        then handle_http st req
        else (st, metrics_page req.scraped)

    -- Handler: without a configured validator, one for the empty key takes its place; `random` is
    -- its verification key.
    unfoldable pub effective_validator : Option Validator → Text → Validator
    effective_validator none random = new_validator hmac random []
    effective_validator (some v) random = v

    -- The root mux.
    unfoldable pub route : Option Validator → Text → State S → HttpRequest → State S × HttpAnswer
    route configured random st req = elim (req.mux_answer) [
      | some (status, location) ↦ (st, moved status location)
      | none ↦
          if text_eq req.path (bytes "/healthz")
          then (st, healthy)
          else if text_eq req.path (bytes "/mcp") || text_eq req.path (bytes "/metrics")
          then elim (middleware hmac (some (effective_validator configured random))
              req.credentials) [
                | rejected body ↦ (st, unauthorized body)
                | admitted ↦ protected st req
              ]
          else (st, not_found)
    ]

    unfoldable pub handler : Option Validator → Text → State S → HttpRequest → State S × HttpAnswer
    handler configured random st req =
        let (t, answer) = route configured random st req in
        (count_request t req (recorded_status answer), answer)
