-- ===== src/Mcp/Rpc/Codes.antt =====
-- The error codes of resources/read.
use source_rudder.Prelude.{
  ◌≡◌, ◌⊎◌, inl, inr, some, List, [], ◌∷◌, ◌++◌, arith, Bool-cases, Option-cases, Text, bytes,
  text_eq_iff, is_empty,
}
use source_rudder.Types.{Result-cases, ok}
use source_rudder.Mcp.Resources.{Resource, find_resource, handle_resources_read}
use source_rudder.Mcp.State.{Server}
use source_rudder.Mcp.Rpc.{Outside, Params, contents, rpc_error, handle_mcp_resources_read}

find_resource-uri :
    (uri : Text) (rs : List Resource) (r : Resource) → find_resource uri rs ≡ some r → r.uri ≡ uri
unfolding find_resource
find_resource-uri uri [] r h = absurd (ground (arith, h))
find_resource-uri uri (q ∷ rs) r h =
    ground (arith, h, text_eq_iff q.uri uri, find_resource-uri uri rs r)

-- resources/read answers with the resource that has the requested URI, or with an error, and the
-- code of each of its errors is -32602.
pub handle_mcp_resources_read_lem :
    {S : Type 0} (o : Outside S) (p : Params) (s : Server S) (params : Text)
    → ((r : Resource) × (handle_mcp_resources_read o p s params ≡ contents r)
        × (p.uri params ≡ ok r.uri))
      ⊎ ((message : Text) × (handle_mcp_resources_read o p s params ≡ rpc_error 32602 message))
unfolding handle_mcp_resources_read handle_resources_read
handle_mcp_resources_read_lem o p s params = elim (Result-cases (p.uri params)) [
  | inl (e, h) ↦ inr (bytes "invalid params: " ++ e.message, ground (arith, h))
  | inr (uri, h) ↦ elim (Bool-cases (is_empty (p.trim_space uri))) [
    | inl b ↦ inr (bytes "uri is required", ground (arith, h, b))
    | inr b ↦ elim (Option-cases (find_resource uri s.resources_registry)) [
      | inl f ↦ inr (bytes "resource not found: " ++ uri, ground (arith, h, b, f))
      | inr (r, f) ↦
          inl (r, ground (arith, h, b, f), rw (find_resource-uri uri s.resources_registry r f) h)
    ]
  ]
]
