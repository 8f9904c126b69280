-- ===== src/Mcp/Stdio.antt =====
-- The loop of STDIOTransport.Start of internal/mcp/transport.go. The lines that the scanner yields, the
-- error that it ends with, the decoding of a line and the outcome of each write are given.
pub mod Served
mod Tests
use source_rudder.Prelude.{
  Bool, not, Option, none, some, List, [], ◌∷◌, ◌==◌, if◌then◌else◌, length, Text, bytes, is_empty,
  has_prefix,
}
use source_rudder.Types.{Failure, Result, wrap_error}
use source_rudder.Mcp.State.{Server, State, Outside}
use source_rudder.Mcp.Rpc.{RpcRequest, RpcResponse, Params, handle_message}

-- What there is when a line has been scanned.
pub record Line : Type 0 where
  pub text : Text
  -- ctx.Done is ready.
  pub cancelled : Bool
  -- What Encode says, if the answer to the line is written.
  pub write_error : Option Failure

-- What Start has done: the state that it leaves, the answers that it wrote, line by line, and its error.
pub record Session (S : Type 0) : Type 0 where
  pub state : State S
  pub written : List (List RpcResponse)
  pub error : Option Failure

-- message[0] == '['
unfoldable pub is_array : Text → Bool
is_array message = has_prefix message (bytes "[")

unfoldable pub read_error : Option Failure → Option Failure
read_error none = none
read_error (some e) = some (wrap_error (bytes "read stdio request: ") e)

module _ {S : Type 0} (o : Outside S) (p : Params) (s : Server S)
    (decode : Bool → Text → Result (List RpcRequest)) where
  -- The state and the answers after one message, if it is not empty.
  unfoldable pub answer_line : State S → Text → State S × List RpcResponse
  answer_line st message =
      if is_empty message
      then (st, [])
      else handle_message o p s st (is_array message) (decode (is_array message) message)

  unfoldable pub serve : State S → List Line → Option Failure → Session S
  serve st [] scan_error = record { state = st; written = []; error = read_error scan_error }
  serve st (line ∷ lines) scan_error =
      let (t, responses) = answer_line st (p.trim_space line.text) in
      let rest = serve t lines scan_error in
      if line.cancelled
      then record { state = st; written = []; error = none }
      else if length responses == 0
      then rest
      else elim (line.write_error) [
        | some e ↦ record { state = t; written = []; error = some e }
        | none ↦ record rest { written = responses ∷ rest.written }
      ]
