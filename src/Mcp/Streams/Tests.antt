-- ===== src/Mcp/Streams/Tests.antt =====
-- Two event streams, one of which has not sent its first ping when the server stops.
use source_rudder.Prelude.{◌≤◌, refl, true, false, [], ◌∷◌}
use source_rudder.Mcp.Streams.{
  greeting, waiting, Streams, no_streams, sse_shutdown_signal, end_sse_streams, greeted, connect,
  turn, Reach, here, later,
}
use source_rudder.Mcp.Streams.Drained.{
  IsDrained, OpenUntilTold, closes-le_one, end_sse_streams-IsDrained,
}

abbrev two_streams : Streams
two_streams = record { made = true; told = false; closes = 0; calls = greeting ∷ waiting ∷ [] }

two_connected : Reach false no_streams two_streams
unfolding sse_shutdown_signal
two_connected = later (later (later here connect) (turn [] greeting [] refl greeted)) connect

closes_example : two_streams.closes ≤ 1
closes_example = closes-le_one two_connected

end_sse_streams-IsDrained_example :
    ((t : Streams) × IsDrained (end_sse_streams two_streams) t) × OpenUntilTold false two_streams
end_sse_streams-IsDrained_example = end_sse_streams-IsDrained two_connected
