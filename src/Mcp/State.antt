-- ===== src/Mcp/State.antt =====
-- The Server of internal/mcp/server.go, what its handlers act on, and what they are given from
-- outside the repository. `S` is the state of what lies outside: the clock, the network, the
-- services that the connectors ask.
use source_rudder.Prelude.{ℕ, Bool, Option, List, ℤ, Text}
use source_rudder.Types.{
  SearchRequest, SearchResultItem, SearchResponse, FetchResponse, Result, CacheEntry,
}
use source_rudder.Mcp.Resources.{Resource}
use source_rudder.Cache.{Service}
use source_rudder.History.{Entry, HistoryService}
use source_rudder.Search.Planner
use source_rudder.Search.Manager.{Connector}
use source_rudder.Synthesis
use source_rudder.Fetch.World.{World}
use source_rudder.Fetch.Config.{Config}
use source_rudder.Fetch.Surface.{Extractor, LinkStatus}

-- What a connector acts on: the outside, and the cache that it shares with the server.
pub record Shared (S : Type 0) : Type 0 where
  pub outside : S
  pub cache : Service

-- The fields of Server that handlers read. A nil *ConnectorManager is `none`; `planner` and
-- `synthesis` say whether the pointer is set.
pub record Server (S : Type 0) : Type 0 where
  pub connector_manager : Option (List (Text × Connector (Shared S)))
  pub planner : Bool
  pub synthesis : Bool
  pub resources_registry : List Resource

-- What handlers change: the cache and the outside, the history if there is one, and the metrics: the
-- counter of successful calls of each tool, the tools whose latency was recorded, and the HTTP requests
-- that were counted, by method, path and status, latest first.
pub record State (S : Type 0) : Type 0 where
  pub shared : Shared S
  pub history : Option HistoryService
  pub tool_calls : List (Text × ℕ)
  pub latencies : List Text
  pub http_requests : List (Text × (Text × ℕ))

-- What a handler returns beside its error.
pub data Reply : Type 0 where
  search_reply : SearchResponse → Reply
  fetch_reply : FetchResponse → Reply
  valid_reply : Text → Bool → Text → Reply
  links_reply : List LinkStatus → Reply
  stub_reply : Text → Reply
  synthesis_reply : Synthesis.SynthesisResult → Reply
  research_reply : Synthesis.DeepResearchResult → Reply
  compare_reply : Synthesis.CompareResult → Reply
  cached_reply : Option CacheEntry → Reply
  invalidated_reply : Text → Bool → Reply
  history_reply : List Entry → ℤ → Text → Reply
  date_reply : ℤ → Reply

-- The arguments of the synthesis tools that the code uses.
pub record SynthesisArgs : Type 0 where
  pub query : Text
  pub results : List SearchResultItem

pub record Outside (S : Type 0) : Type 0 where
  -- time.Now; and what a fetch finds when it starts.
  pub tick : S → ℤ × S
  pub open_world : S → World × S
  -- json.Unmarshal of the arguments of each kind of tool.
  pub search_args : Text → Result SearchRequest
  pub fetch_args : Text → Result (Text × Text)
  pub validate_args : Text → Result (Text × List Text)
  pub synthesis_args : Text → Result SynthesisArgs
  pub key_args : Text → Result Text
  pub history_args : Text → Result (ℤ × Text)
  -- formatResult.
  pub format_result : Reply → Text
  pub planner_runtime : Planner.Runtime
  pub synthesis_runtime : Synthesis.Runtime
  pub extractor : Extractor
  pub config : Config

-- A tool's Handler.
abbrev pub Handler : Type 0 → Type 0
Handler S = State S → Text → State S × Result Reply
