-- ===== src/Lib.antt =====
-- SourceRudder: a server of the Model Context Protocol (MCP) that searches, fetches and synthesizes.
--
-- A request arrives as JSON-RPC (internal/mcp/server.go, transport.go). A tools/call runs the handler
-- of a tool (tools.go): a search handler asks a connector of the manager
-- (internal/search/connector_manager.go) for results, has the planner (planner.go) annotate them and
-- records the search in the history (internal/cache/history.go); the connectors share a cache
-- (internal/cache/cache.go), which get_cached and invalidate_cache reach too; a fetch handler drives
-- the fetch engine (internal/fetch/fetcher.go), and a synthesis handler the synthesizer
-- (internal/synthesis/synthesizer.go). internal/auth/auth.go guards the HTTP routes.
--
-- Files:
--   Prelude          texts as bytes, lists and integers over native numbers, maps, Boolean tests
--   Types            pkg/types/types.go, Go's errors and results
--   Cache            internal/cache/cache.go; View: what readers are shown; Contract: each operation;
--                    Race and Deletes: sequences of locked sections
--   History          internal/cache/history.go; Window: the buffer against all that was appended
--   Fetch            internal/fetch/fetcher.go. Address: isPublicIP. Config: the constructor. Retry:
--                    shouldRetry, backoffDelay. World: resolveAndValidate and client.Do. Redirect:
--                    manualRedirectFetch. Engine: doFetchWithRetries. Surface: the exported methods.
--                    Pool: the workers of CheckLinkStatus as a step relation. Slots: the slots that
--                    fetches wait for. Extractor: internal/fetch/extractor.go
--   Normalization    internal/normalization/normalizer.go
--   Search           internal/search: Planner, Manager (connector_manager.go), Registry
--   Synthesis        internal/synthesis/synthesizer.go: Findings, Themes, Compare, Service
--   Auth             internal/auth/auth.go
--   Connectors       internal/connectors: Degradation (degradation.go), Web (web.go), LocalIndex
--                    (local_index.go) with its Corpus (local_index_corpus.go), OfficialDocs
--                    (official_docs.go). Api: the connectors to an API and their keys in the cache;
--                    GitHub (github.go), Packages (npm.go, nuget.go, dockerhub.go, stackoverflow.go),
--                    PyPi (pypi.go). Indexed: the other connectors to SearXNG; Video (youtube.go),
--                    News (news.go), Academic (academic.go), Reddit (reddit.go), Images (images.go)
--   Mcp              internal/mcp: State (the Server), Wire (normalizeSearchResponse), Search, Stateful
--                    and Tools (the handlers of tools.go), Resources, Rpc (JSON-RPC and stdio), Http,
--                    Direct (HandleToolsCall), Recorder (the status of a response), Streams (the
--                    event streams of handleHTTPGet), Stdio (the loop of STDIOTransport.Start)
--   Observability    internal/observability/metrics.go: the counters; Shared: Default
--   Commands         cmd/sourcerudder/main.go: flags and environment
-- A definition has the name of the function it models, in lower case with underscores. A module named
-- Tests applies the theorems to concrete inputs.
--
-- State is passed on explicitly. A mutex makes a method one step; Get of the cache is two. A fetch
-- carries a Run: the response under construction, and the addresses dialed, URLs requested and delays
-- waited for. What lies outside the repository is a parameter: the resolver, the network, the context
-- and timers (World), JSON, the clock and the connectors' services (Outside), HMAC, url.Parse, the
-- Unicode functions of strings, SHA-256, the HTTP exchanges of the connectors, sort.Slice, and the
-- order of a range over a map. A confidence is kept in hundredths, exactly; a moment or a duration is
-- an integer of nanoseconds, and the wrap-around of an int64 is written out in the backoff.
--
-- A score is a whole number, except in PyPi, where it is kept in tenths.
--
-- The loops over redirects and attempts run on a count that is the code's own bound, MaxRedirects + 1
-- and MaxAttempts, so no fuel is added. Loops over slices are structural.
--
-- Not modelled: the package regexp, the HTTP requests and JSON of the connectors, Prometheus and
-- tracing, the listening of the server and its stop, the wiring of the commands and the health check.
pub mod Prelude
pub mod Types
pub mod Cache
pub mod History
pub mod Fetch
pub mod Normalization
pub mod Search
pub mod Synthesis
pub mod Auth
pub mod Mcp
pub mod Commands
pub mod Observability
pub mod Connectors
