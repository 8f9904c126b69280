-- ===== src/Mcp/Search.antt =====
-- The handlers of the search tools in internal/mcp/tools.go, and recordSearch.
pub mod Recorded
use source_rudder.Prelude.{
  Bool, false, ◌&&◌, not, Option, none, some, List, [], ◌∷◌, ◌++◌, ltb, ◌==◌, if◌then◌else◌, length,
  elems, append_one, pos, Text, bytes, text_eq, is_empty, has_prefix,
}
use source_rudder.Types.{
  SearchRequest, SearchResponse, Result, ok, err, no_response, wrap_error, plain_error,
}
use source_rudder.History
use source_rudder.Search.Planner.{SearchPlan, plan}
use source_rudder.Search.Manager
use source_rudder.Search.Manager.{Connector}
use source_rudder.Mcp.State.{Shared, Server, State, Reply, Outside, Handler, search_reply}
use source_rudder.Mcp.Wire.{normalize_search_response}

-- err == nil && len(resp.Errors) == 1 && strings.HasPrefix(resp.Errors[0], "unknown source:")
abbrev pub is_unknown_source : Result SearchResponse → Bool
is_unknown_source (err e) = false
is_unknown_source (ok resp) = elim (elems resp.errors) [
  | [] ↦ false
  | e ∷ [] ↦ has_prefix e (bytes "unknown source:")
  | e ∷ f ∷ es ↦ false
]

-- The response of search_doc_oficial, and the source under which it is recorded.
unfoldable pub doc_shown : SearchResponse → Text × SearchResponse
doc_shown resp =
    let shown =
      if is_empty resp.strategy
      then record resp {
        strategy = bytes "official_doc_web_fallback";
        warnings = append_one resp.warnings (
            bytes
              "strategy: official_doc_web_fallback — results came from general web search (SearxNG), not from the authoritative documentation registry");
      }
      else resp in
    (
      (if text_eq shown.strategy (bytes "official_doc_registry_search")
          then bytes "official_docs"
          else bytes "web"),
      shown,
    )

module _ {S : Type 0} (o : Outside S) where
  -- The entry is written only if there is a history and the search has something to show.
  unfoldable pub record_search : State S → Text → SearchResponse → State S
  record_search st source resp = elim (st.history) [
    | none ↦ st
    | some h ↦
        if is_empty resp.query
        then st
        else if resp.partial && length (elems resp.results) == 0
        then st
        else let (now, outside) = o.tick st.shared.outside in
          record st {
            shared = record (st.shared) { outside = outside };
            history = some (
                History.append h (record { query = resp.query; source = source; timestamp = pos 0 })
                  now);
          }
  ]

  -- How every search handler ends.
  unfoldable pub finish : Text → State S → SearchResponse → State S × Result Reply
  finish source st resp =
      (record_search st source resp, ok (search_reply (normalize_search_response (some resp))))

  abbrev pub with_shared : State S → Shared S → State S
  with_shared st shared = record st { shared = shared }

  -- What is written for a handler that answers without a search.
  abbrev pub unsearched : State S → SearchResponse → State S × Result Reply
  unsearched st resp = (st, ok (search_reply (normalize_search_response (some resp))))

  -- What the plan adds to the response.
  unfoldable pub planned : Option SearchPlan → Text → SearchResponse → SearchResponse
  planned none source resp = resp
  planned (some p) source resp =
      let used =
        if ltb 0 (length p.connectors)
        then record resp { sources_used = some (source ∷ []) }
        else resp in
      if not (is_empty p.intent)
      then record used { warnings = append_one used.warnings (bytes "intent: " ++ p.intent) }
      else used

  unfoldable pub plan_of : Server S → SearchRequest → Option SearchPlan
  plan_of s req = if s.planner then some (plan o.planner_runtime req.query req) else none

  -- What a handler does with the answer of a connector.
  unfoldable pub conclude :
      (SearchResponse → Text × SearchResponse)
      → State S
      → Shared S × Result SearchResponse
      → State S × Result Reply
  conclude f st (shared, err e) = (with_shared st shared, err e)
  conclude f st (shared, ok resp) =
      let (source, shown) = f resp in finish source (with_shared st shared) shown

  abbrev pub invalid_args {ℓ} :
      {A : Type ℓ} → State S → Result A → (A → State S × Result Reply) → State S × Result Reply
  invalid_args st (err e) k = (st, err (wrap_error (bytes "invalid args: ") e))
  invalid_args st (ok a) k = k a

  -- makeSearchHandler
  unfoldable pub make_search_handler : Server S → Text → Handler S
  make_search_handler s source st args = invalid_args st (o.search_args args) λ req.
      elim (s.connector_manager) [
        | none ↦ unsearched st (record no_response {
          query = req.query;
          results = some [];
          errors = some (bytes "connector manager not initialized" ∷ []);
        })
        | some connectors ↦
            conclude (λ resp. (source, planned (plan_of s req) source resp)) st
              (Manager.search connectors source req st.shared)
      ]

  -- makeDocOficialHandler: the registry's connector, and the web if there is none.
  unfoldable pub search_docs :
      List (Text × Connector (Shared S))
      → SearchRequest
      → Shared S
      → Shared S × Result SearchResponse
  search_docs connectors req shared =
      let (t, r) = Manager.search connectors (bytes "official_docs") req shared in
      if is_unknown_source r then Manager.search connectors (bytes "web") req t else (t, r)

  unfoldable pub make_doc_oficial_handler : Server S → Handler S
  make_doc_oficial_handler s st args = invalid_args st (o.search_args args) λ req.
      elim (s.connector_manager) [
        | none ↦ unsearched st (record no_response {
          query = req.query;
          results = some [];
          strategy = bytes "official_doc_web_fallback";
          sources_used = some [];
          warnings = some (
              bytes
                "strategy: official_doc_web_fallback — no specialized official-documentation provider is wired; falling back to general web search"
              ∷ []);
          errors = some (bytes "connector manager not initialized" ∷ []);
        })
        | some connectors ↦ conclude doc_shown st (search_docs connectors req st.shared)
      ]

  -- makeLocalIndexHandler
  unfoldable pub make_local_index_handler : Server S → Handler S
  make_local_index_handler s st args = invalid_args st (o.search_args args) λ req.
      let missing = record no_response {
        query = req.query;
        results = some [];
        strategy = bytes "local_index_unavailable";
        sources_used = some [];
        warnings = some (
            bytes
              "local_index_unavailable: no local-index provider is configured for SourceRudder; this tool does not fall back to web search"
            ∷ []);
        errors = some (bytes "local_index_unavailable" ∷ []);
      } in
      elim (s.connector_manager) [
        | none ↦ unsearched st missing
        | some connectors ↦ elim (Manager.get_connector connectors (bytes "local_index")) [
          | none ↦ unsearched st missing
          | some conn ↦
              conclude (λ resp. (bytes "local_index", resp)) st
                (Manager.search connectors (bytes "local_index") req st.shared)
        ]
      ]

  abbrev pub refusal : SearchRequest → Text → SearchResponse
  refusal req message = record no_response {
    query = req.query;
    results = some [];
    errors = some (message ∷ []);
  }

  -- makeGitHubPRHandler and makeGitHubIssueHandler, which differ in the method that they call. The
  -- handlers of the source dereference a nil manager, which panics; here that case is an error.
  unfoldable pub make_github_handler :
      (Connector (Shared S) → Option (Shared S → SearchRequest → Shared S × Result SearchResponse))
      → Server S
      → Handler S
  make_github_handler method s st args = invalid_args st (o.search_args args) λ req.
      elim (s.connector_manager) [
        | none ↦ (st, err (plain_error (bytes "panic: nil connector manager")))
        | some connectors ↦ elim (Manager.get_connector connectors (bytes "github")) [
          | none ↦ unsearched st (refusal req (bytes "github connector not available"))
          | some conn ↦ elim (method conn) [
            | none ↦ unsearched st (refusal req (bytes "invalid github connector type"))
            | some call ↦ conclude (λ resp. (bytes "github", resp)) st (call st.shared req)
          ]
        ]
      ]

  abbrev pub make_github_pr_handler : Server S → Handler S
  make_github_pr_handler = make_github_handler λ conn. conn.search_pr

  abbrev pub make_github_issue_handler : Server S → Handler S
  make_github_issue_handler = make_github_handler λ conn. conn.search_issue
