-- ===== src/Mcp/Rpc.antt =====
-- JSON-RPC: handleRPCRequest and its cases, handleHTTPPost and HandleHTTP of internal/mcp/server.go,
-- handleMessage of internal/mcp/transport.go, and internal/mcp/protocol_version.go.
pub mod Batch
pub mod Version
pub mod Codes
use source_rudder.Prelude.{
  ℕ, String, Bool, false, ◌&&◌, ◌||◌, not, Option, none, some, List, [], ◌∷◌, ◌++◌, map, ◌==◌,
  if◌then◌else◌, length, Text, bytes, text_eq, is_empty, lookup,
}
use source_rudder.Types.{Failure, Result, ok, err, plain_error}
use source_rudder.Mcp.Resources.{Resource, Listed, handle_resources_list, handle_resources_read}
use source_rudder.Mcp.State.{Server, State, Reply, Outside}
use source_rudder.Mcp.Tools.{registry, invoke_tool}

-- An rpcRequest; `id` is `none` for a missing or a null id.
pub record RpcRequest : Type 0 where
  pub id : Option Text
  pub method : Text
  pub params : Text

-- What an answer carries beside its id.
pub data Content : Type 0 where
  initialized : Text → Content
  tools : List Text → Content
  called : Text → Content
  listed : List Listed → Content
  contents : Resource → Content
  pong : Content
  rpc_error : ℕ → Text → Content

pub record RpcResponse : Type 0 where
  pub id : Option Text
  pub content : Content

-- writeStdioParseError
abbrev pub parse_error : RpcResponse
parse_error = record { id = none; content = rpc_error 32700 (bytes "parse error") }

-- What json.Unmarshal makes of the parameters of a request: the requested protocol version, which is
-- empty if there is none, the name and the arguments of a call, a resource's URI; and
-- strings.TrimSpace.
pub record Params : Type 0 where
  pub version : Text → Text
  pub call : Text → Result (Text × Text)
  pub uri : Text → Result Text
  pub trim_space : Text → Text

abbrev pub supported_protocol_versions : List Text
supported_protocol_versions = bytes "2025-11-25" ∷ bytes "2025-06-18" ∷ bytes "2024-11-05" ∷ []

unfoldable pub is_among : Text → List Text → Bool
is_among version [] = false
is_among version (supported ∷ rest) = text_eq version supported || is_among version rest

unfoldable pub is_supported_protocol_version : Text → Bool
is_supported_protocol_version version = is_among version supported_protocol_versions

unfoldable pub negotiate_protocol_version : Text → Text
negotiate_protocol_version requested =
    if is_supported_protocol_version requested then requested else bytes "2025-11-25"

module _ {S : Type 0} (o : Outside S) (p : Params) (s : Server S) where
  -- handleMCPToolsCall
  unfoldable pub call_tool : State S → Text × Text → State S × Content
  call_tool st (name, arguments) =
      if is_empty name
      then (st, rpc_error 32602 (bytes "name is required"))
      else elim (lookup name registry) [
        | none ↦ (st, rpc_error 32602 (bytes "tool not found: " ++ name))
        | some kind ↦
            let (t, result) = invoke_tool o s name kind st arguments in
            (
              t,
              elim result [
                | err e ↦ rpc_error 32603 e.message
                | ok reply ↦ called (o.format_result reply)
              ],
            )
      ]

  unfoldable pub handle_tools_call : State S → Text → State S × Content
  handle_tools_call st params = elim (p.call params) [
    | err e ↦ (st, rpc_error 32602 (bytes "invalid params: " ++ e.message))
    | ok call ↦ call_tool st call
  ]

  unfoldable pub handle_mcp_resources_read : Text → Content
  handle_mcp_resources_read params =
      elim (handle_resources_read p.trim_space (p.uri params) s.resources_registry) [
        | err e ↦ rpc_error 32602 e.message
        | ok r ↦ contents r
      ]

  abbrev pub one_of : Text → String → String → Bool
  one_of method a b = text_eq method (bytes a) || text_eq method (bytes b)

  -- The cases of handleRPCRequest; `none` for an unknown method.
  unfoldable pub dispatch : State S → RpcRequest → State S × Option Content
  dispatch st req =
      if text_eq req.method (bytes "initialize")
      then (st, some (initialized (negotiate_protocol_version (p.version req.params))))
      else if one_of req.method "tools/list" "mcp.tools.list"
      then (st, some (tools (map (λ t. t.0) registry)))
      else if one_of req.method "tools/call" "mcp.tools.call"
      then (let (t, c) = handle_tools_call st req.params in (t, some c))
      else if one_of req.method "resources/list" "mcp.resources.list"
      then (st, some (listed (handle_resources_list s.resources_registry)))
      else if one_of req.method "resources/read" "mcp.resources.read"
      then (st, some (handle_mcp_resources_read req.params))
      else if text_eq req.method (bytes "ping")
      then (st, some pong)
      else (st, none)

  -- handleRPCRequest: a request without an id is a notification, which has its effect and no answer.
  unfoldable pub handle_rpc_request : State S → RpcRequest → State S × Option RpcResponse
  handle_rpc_request st req =
      let (t, content) = dispatch st req in
      elim (req.id) [
        | none ↦ (t, none)
        | some i ↦ elim content [
          | some c ↦ (t, some (record { id = some i; content = c }))
          | none ↦ (
            t,
            some (record {
              id = some i;
              content = rpc_error 32601 (bytes "method not found: " ++ req.method);
            }),
          )
        ]
      ]

  -- The loop of handleMessage over the requests of one line.
  unfoldable pub handle_batch : State S → List RpcRequest → State S × List RpcResponse
  handle_batch st [] = (st, [])
  handle_batch st (req ∷ reqs) =
      let (t, response) = handle_rpc_request st req in
      let (u, responses) = handle_batch t reqs in
      (u, elim response [ none ↦ responses | some r ↦ r ∷ responses ])

  -- What is written for a line: nothing, one response, an array of them, or the parse error. The
  -- requests are what json.Unmarshal made of the line.
  unfoldable pub handle_message :
      State S → Bool → Result (List RpcRequest) → State S × List RpcResponse
  handle_message st is_batch (err e) = (st, parse_error ∷ [])
  handle_message st is_batch (ok reqs) =
      if is_batch && length reqs == 0 then (st, parse_error ∷ []) else handle_batch st reqs
