-- ===== src/Observability.antt =====
-- internal/observability/metrics.go: the counters of a Metrics, and the shared instance. A method that
-- holds a lock, or that is one atomic operation, is one step. A Prometheus metric is the list of what it
-- was given.
pub mod Shared
mod Tests
use source_rudder.Prelude.{
  none, some, List, [], ◌∷◌, map, if◌then◌else◌, ℤ, pos, ◌+ℤ◌, Text, bytes, is_empty, lookup,
  insert,
}
use source_rudder.Fetch.Retry.{wrap64}

-- `Seconds` is the type of the latencies, float64.
pub record Metrics (Seconds : Type 0) : Type 0 where
  pub tools_calls : List (Text × ℤ)
  pub sessions_active : ℤ
  pub searches_total : ℤ
  pub errors_total : ℤ
  -- Method, path and status.
  pub http_requests : List (Text × (Text × Text))
  pub search_latency : List (Text × Seconds)
  -- Source and kind.
  pub search_degraded : List (Text × Text)

-- atomic.AddInt64(&n, 1), or n++
abbrev pub next_count : ℤ → ℤ
next_count n = wrap64 (n +ℤ pos 1)

-- m[key], for a map of counters.
unfoldable pub count_of : Text → List (Text × ℤ) → ℤ
count_of key counts = elim (lookup key counts) [ none ↦ pos 0 | some n ↦ n ]

-- The label of a text, which is "unknown" for the empty one.
unfoldable pub label : Text → Text
label text = if is_empty text then bytes "unknown" else text

module _ {Seconds : Type 0} where
  abbrev pub new_metrics : Metrics Seconds
  new_metrics = record {
    tools_calls = [];
    sessions_active = pos 0;
    searches_total = pos 0;
    errors_total = pos 0;
    http_requests = [];
    search_latency = [];
    search_degraded = [];
  }

  unfoldable pub incr_tool_call : Text → Metrics Seconds → Metrics Seconds
  incr_tool_call tool_name m = record m {
    tools_calls = insert tool_name (next_count (count_of tool_name m.tools_calls)) m.tools_calls;
  }

  unfoldable pub incr_session : Metrics Seconds → Metrics Seconds
  incr_session m = record m { sessions_active = next_count m.sessions_active }

  unfoldable pub incr_search : Text → Metrics Seconds → Metrics Seconds
  incr_search source m = record m { searches_total = next_count m.searches_total }

  unfoldable pub incr_error : Metrics Seconds → Metrics Seconds
  incr_error m = record m { errors_total = next_count m.errors_total }

  unfoldable pub record_search_latency : Text → Seconds → Metrics Seconds → Metrics Seconds
  record_search_latency source seconds m = record m {
    search_latency = (source, seconds) ∷ m.search_latency;
  }

  unfoldable pub record_http_request : Text → Text → Text → Metrics Seconds → Metrics Seconds
  record_http_request method path status m = record m {
    http_requests = (method, (path, status)) ∷ m.http_requests;
  }

  unfoldable pub record_search_degraded : Text → Text → Metrics Seconds → Metrics Seconds
  record_search_degraded source kind m = record m {
    search_degraded = (label source, label kind) ∷ m.search_degraded;
  }
