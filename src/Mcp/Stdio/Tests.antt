-- ===== src/Mcp/Stdio/Tests.antt =====
-- Standard input with a ping, an empty line and an array that is no JSON.
use source_rudder.Prelude.{
  ◌≡◌, refl, Bool, true, false, none, some, List, [], ◌∷◌, map, All, Text, bytes,
}
use source_rudder.Types.{Result, ok, err, plain_error}
use source_rudder.Mcp.Rpc.{RpcRequest}
use source_rudder.Mcp.Rpc.Batch.{ids}
use source_rudder.Mcp.Stdio.{Line, read_error, serve}
use source_rudder.Mcp.Stdio.Served.{owed, IsAnswer, serve-owed}
use source_rudder.Mcp.Tests.{outside, params, server, idle}

-- Every message but an array is a ping.
abbrev pings : Bool → Text → Result (List RpcRequest)
pings true message = err (plain_error message)
pings false message = ok (record { id = some message; method = bytes "ping"; params = [] } ∷ [])

abbrev line : Text → Line
line text = record { text = text; cancelled = false; write_error = none }

abbrev input : List Line
input = line (bytes "1") ∷ line [] ∷ line (bytes "[") ∷ []

serve-owed_example :
    (map ids (serve outside params server pings idle input none).written ≡ owed params pings input)
    × All (All IsAnswer) (serve outside params server pings idle input none).written
    × ((serve outside params server pings idle input none).error ≡ read_error none)
serve-owed_example =
    serve-owed outside params server pings idle input none
      ((refl, refl), ((refl, refl), ((refl, refl), tt)))
