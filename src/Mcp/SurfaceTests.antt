-- ===== src/Mcp/SurfaceTests.antt =====
-- The server that the tests of the tools run, called without JSON-RPC and started without a key.
use source_rudder.Prelude.{none, some, [], ◌∷◌, bytes}
use source_rudder.Commands.{Process}
use source_rudder.Mcp.Rpc.{handle_tools_call}
use source_rudder.Mcp.Direct.{SameCall, handle_tools_call_direct, handle_tools_call-SameCall}
use source_rudder.Mcp.Tests.{outside, params, server, idle}

handle_tools_call-SameCall_example :
    SameCall outside params server
      (handle_tools_call outside params server idle (bytes "{}"))
      (handle_tools_call_direct outside params server idle (bytes "{}"))
handle_tools_call-SameCall_example =
    handle_tools_call-SameCall outside params server idle (bytes "{}")

-- Every variable of the environment is one line break.
abbrev blank : Process
blank = record { lookup_env = λ _. some (10 ∷ []); atoi = λ _. none; trim_space = λ _. [] }
