-- ===== src/Mcp/Streams.antt =====
-- The event streams of internal/mcp/server.go: handleHTTPGet, sseShutdownSignal and endSSEStreams, as
-- steps in any order. A sync.Once is a flag.
pub mod Drained
mod Tests
use source_rudder.Prelude.{
  ℕ, suc, ◌≤◌, ◌≡◌, Bool, true, false, List, [], ◌∷◌, ◌++◌, if◌then◌else◌, select,
}

-- Where a call of handleHTTPGet stands: before its first ping is flushed, in the select, or returned.
pub data StreamState : Type 0 where
  greeting waiting ended : StreamState

pub record Streams : Type 0 where
  -- sseShutdownInitOnce has run, so the channel sseShutdown is there.
  pub made : Bool
  -- sseShutdownOnce has run.
  pub told : Bool
  -- How often the channel was closed; a second time panics.
  pub closes : ℕ
  pub calls : List StreamState

abbrev pub no_streams : Streams
no_streams = record { made = false; told = false; closes = 0; calls = [] }

unfoldable pub sse_shutdown_signal : Streams → Streams
sse_shutdown_signal s = record s { made = true }

unfoldable pub end_sse_streams : Streams → Streams
end_sse_streams s =
    let t = sse_shutdown_signal s in
    if t.told then t else record t { told = true; closes = suc t.closes }

-- One step of one call, when the channel has been closed so often. Only where `disturbs` may a write
-- fail or the context of a request end.
pub data Turn (disturbs : Bool) (closes : ℕ) : StreamState → StreamState → Type 0 where
  greeted : Turn disturbs closes greeting waiting
  not_greeted : disturbs ≡ true → Turn disturbs closes greeting ended
  pinged : Turn disturbs closes waiting waiting
  not_pinged : disturbs ≡ true → Turn disturbs closes waiting ended
  context_done : disturbs ≡ true → Turn disturbs closes waiting ended
  shut_down : 1 ≤ closes → Turn disturbs closes waiting ended

pub data Step (disturbs : Bool) (s : Streams) : Streams → Type 0 where
  connect : Step disturbs s (record (sse_shutdown_signal s) { calls = greeting ∷ s.calls })
  -- Stop, or the hook that runs on shutdown.
  shut : Step disturbs s (end_sse_streams s)
  turn :
      (before : List StreamState) (x : StreamState) (after : List StreamState) {y : StreamState}
      → s.calls ≡ before ++ x ∷ after
      → Turn disturbs s.closes x y
      → Step disturbs s (record s { calls = before ++ y ∷ after })

pub data Reach (disturbs : Bool) (s : Streams) : Streams → Type 0 where
  here : Reach disturbs s s
  later : {t u : Streams} → Reach disturbs s t → Step disturbs t u → Reach disturbs s u
