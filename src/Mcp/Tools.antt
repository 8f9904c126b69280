-- ===== src/Mcp/Tools.antt =====
-- The other handlers of internal/mcp/tools.go, registerTools, and the call of a tool: invokeTool and
-- HandleToolsCall of internal/mcp/server.go.
use source_rudder.Prelude.{
  count_at, suc, not, Option, none, some, List, [], ◌∷◌, ◌++◌, ltb, if◌then◌else◌, length, Text,
  bytes, text_eq, is_empty, has_prefix, trim_prefix, insert,
}
use source_rudder.Types.{Failure, Result, ok, err, plain_error}
use source_rudder.Fetch.World.{Run}
use source_rudder.Fetch.Surface.{
  LinkStatus, fetch, fetch_and_extract, extract_structured, validate_url, check_link,
}
use source_rudder.Synthesis.Service.{summarize, deep_research, compare_sources}
use source_rudder.Mcp.State.{
  Server, State, Reply, Outside, Handler, fetch_reply, valid_reply, links_reply, stub_reply,
  synthesis_reply, research_reply, compare_reply,
}
use source_rudder.Mcp.Search.{
  invalid_args, make_search_handler, make_doc_oficial_handler, make_local_index_handler,
  make_github_pr_handler, make_github_issue_handler,
}
use source_rudder.Mcp.Stateful.{
  make_get_cached_handler, make_invalidate_cache_handler, make_get_search_history_handler,
  get_current_date_handler,
}

-- A tool of the registry: its name, and the source or the operation that its handler is made for.
pub data Kind : Type 0 where
  searches : Text → Kind
  github_pr github_issue doc_oficial local_index : Kind
  fetches validates synthesizes : Text → Kind
  gets_cached invalidates_cache gets_history gets_date : Kind

-- registerTools, over the registry that buildToolsRegistry lists.
abbrev pub registry : List (Text × Kind)
registry =
    (bytes "search_web", searches (bytes "web"))
    ∷ (bytes "search_news", searches (bytes "news"))
    ∷ (bytes "search_doc_oficial", doc_oficial)
    ∷ (bytes "search_local_index", local_index)
    ∷ (bytes "search_github", searches (bytes "github"))
    ∷ (bytes "search_github_pr", github_pr)
    ∷ (bytes "search_github_issue", github_issue)
    ∷ (bytes "search_stackoverflow", searches (bytes "stackoverflow"))
    ∷ (bytes "search_npm", searches (bytes "npm"))
    ∷ (bytes "search_nuget", searches (bytes "nuget"))
    ∷ (bytes "search_pypi", searches (bytes "pypi"))
    ∷ (bytes "search_docker_hub", searches (bytes "dockerhub"))
    ∷ (bytes "search_academic", searches (bytes "academic"))
    ∷ (bytes "search_reddit", searches (bytes "reddit"))
    ∷ (bytes "search_youtube", searches (bytes "youtube"))
    ∷ (bytes "search_images", searches (bytes "images"))
    ∷ (bytes "fetch_url", fetches (bytes "fetch"))
    ∷ (bytes "fetch_and_extract", fetches (bytes "fetch_and_extract"))
    ∷ (bytes "extract_structured", fetches (bytes "extract_structured"))
    ∷ (bytes "validate_url", validates (bytes "validate_url"))
    ∷ (bytes "check_link_status", validates (bytes "check_link_status"))
    ∷ (bytes "summarize_results", synthesizes (bytes "summarize"))
    ∷ (bytes "deep_research", synthesizes (bytes "deep_research"))
    ∷ (bytes "compare_sources", synthesizes (bytes "compare_sources"))
    ∷ (bytes "get_cached", gets_cached)
    ∷ (bytes "invalidate_cache", invalidates_cache)
    ∷ (bytes "get_search_history", gets_history)
    ∷ (bytes "get_current_date", gets_date)
    ∷ []

module _ {S : Type 0} (o : Outside S) where
  -- What a fetch method returns to its handler: invokeTool drops the response if there is an error.
  abbrev pub fetched : Run × Option Failure → Result Reply
  fetched (r, some e) = err e
  fetched (r, none) = ok (fetch_reply r.response)

  abbrev pub moved : State S → S → State S
  moved st outside = record st { shared = record (st.shared) { outside = outside } }

  unfoldable pub make_fetch_handler : Text → Handler S
  make_fetch_handler op st args = invalid_args o st (o.fetch_args args) λ (url, asked).
      let mode = if is_empty asked then bytes "auto" else asked in
      let (w, outside) = o.open_world st.shared.outside in
      if text_eq op (bytes "fetch")
      then (moved st outside, fetched (fetch w o.config url))
      else if text_eq op (bytes "fetch_and_extract")
      then (moved st outside, fetched (fetch_and_extract w o.config o.extractor url mode))
      else if text_eq op (bytes "extract_structured")
      then (moved st outside, fetched (extract_structured w o.config o.extractor url))
      else (st, err (plain_error (bytes "unknown fetch operation: " ++ op)))

  abbrev pub error_message : Option Failure → Text
  error_message none = []
  error_message (some e) = e.message

  -- The workers of CheckLinkStatus, each URL on what its fetch finds; the results stand in the order
  -- of the URLs.
  unfoldable pub check_links : S → List Text → S × List LinkStatus
  check_links outside [] = (outside, [])
  check_links outside (url ∷ urls) =
      let (w, next) = o.open_world outside in
      let (last, rest) = check_links next urls in (last, check_link w o.config url ∷ rest)

  unfoldable pub make_validate_handler : Text → Handler S
  make_validate_handler op st args = invalid_args o st (o.validate_args args) λ (url, urls).
      if text_eq op (bytes "validate_url")
      then (let (w, outside) = o.open_world st.shared.outside in
          let (valid, e) = validate_url w o.config url in
          (moved st outside, ok (valid_reply url valid (error_message e))))
      else if text_eq op (bytes "check_link_status")
      then if ltb 100 (length urls)
        then (st, err (plain_error (bytes "url count exceeds 100")))
        else (let (outside, links) = check_links st.shared.outside urls in
            (moved st outside, ok (links_reply links)))
      else (st, err (plain_error (bytes "unknown validate operation: " ++ op)))

  unfoldable pub make_synthesize_handler : Server S → Text → Handler S
  make_synthesize_handler s op st args = invalid_args o st (o.synthesis_args args) λ req.
      let rt = o.synthesis_runtime in
      if not s.synthesis
      then (st, ok (stub_reply req.query))
      else if text_eq op (bytes "summarize")
      then (st, ok (synthesis_reply (summarize rt req.query req.results)))
      else if text_eq op (bytes "deep_research")
      then (let (now, outside) = o.tick st.shared.outside in
          (moved st outside, ok (research_reply (deep_research rt now req.query req.results))))
      else if text_eq op (bytes "compare_sources")
      then (st, ok (compare_reply (compare_sources rt req.results)))
      else (st, err (plain_error (bytes "unknown synthesis operation: " ++ op)))

  unfoldable pub handler_of : Server S → Kind → Handler S
  handler_of s (searches source) = make_search_handler o s source
  handler_of s github_pr = make_github_pr_handler o s
  handler_of s github_issue = make_github_issue_handler o s
  handler_of s doc_oficial = make_doc_oficial_handler o s
  handler_of s local_index = make_local_index_handler o s
  handler_of s (fetches op) = make_fetch_handler op
  handler_of s (validates op) = make_validate_handler op
  handler_of s (synthesizes op) = make_synthesize_handler s op
  handler_of s gets_cached = make_get_cached_handler o s
  handler_of s invalidates_cache = make_invalidate_cache_handler o s
  handler_of s gets_history = make_get_search_history_handler o
  handler_of s gets_date = get_current_date_handler o

  -- The two metrics that invokeTool records after the handler.
  unfoldable pub measured : Text → State S × Result Reply → State S × Result Reply
  measured name (st, result) =
      let timed =
        if has_prefix name (bytes "search_")
        then record st { latencies = trim_prefix name (bytes "search_") ∷ st.latencies }
        else st in
      elim result [
        | err e ↦ (timed, err e)
        | ok reply ↦ (
          record timed {
            tool_calls = insert name (suc (count_at name timed.tool_calls)) timed.tool_calls;
          },
          ok reply,
        )
      ]

  unfoldable pub invoke_tool : Server S → Text → Kind → Handler S
  invoke_tool s name kind st args = measured name (handler_of s kind st args)
