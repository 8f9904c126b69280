-- ===== src/Connectors/Indexed/News.antt =====
-- internal/connectors/news.go.
use source_rudder.Prelude.{
  ℕ, suc, none, List, [], ◌∷◌, ◌++◌, if◌then◌else◌, ℤ, pos, ◌-ℤ◌, leb_ℤ, Text, bytes, show_nat,
}
use source_rudder.Types.{SearchRequest, SearchResultItem, SearchResponse}
use source_rudder.Cache.{Service}
use source_rudder.Connectors.Web.{get_max_results, extract_domain}
use source_rudder.Connectors.Indexed.{
  IndexedResult, IndexEnvironment, param_if_any, indexed_results, indexed_response,
  through_index_cache,
}

-- The loop over the decoded items, from the index i on.
unfoldable pub news_items : ℤ → ℕ → List IndexedResult → List SearchResultItem
news_items max_results i [] = []
news_items max_results i (item ∷ items) =
    let rest = news_items max_results (suc i) items in
    if leb_ℤ max_results (pos i)
    then []
    else record {
      title = item.title;
      url = item.url;
      snippet = item.content;
      source = item.engine;
      engine = item.engine;
      type = bytes "article";
      score = max_results -ℤ pos i;
      published_at = none;
      author = [];
      tags = [];
      citation_id = bytes "news:" ++ (extract_domain item.parsed_url ++ (bytes ":" ++ show_nat i));
      canonical_url = [];
    }
      ∷ rest

unfoldable pub news_params : Text → SearchRequest → List (Text × Text)
news_params query req =
    (bytes "q", query)
    ∷ (bytes "format", bytes "json")
    ∷ (bytes "categories", bytes "news")
    ∷ (bytes "engines", [])
    ∷ (param_if_any (bytes "language") req.language
        ++ (param_if_any (bytes "time_range") req.time_range
            ++ (if req.safe_search then (bytes "safesearch", bytes "1") ∷ [] else [])))

module _ (env : IndexEnvironment) where
  unfoldable pub news_afresh : SearchRequest → SearchResponse
  news_afresh req =
      let query = env.trim_space req.query in
      let max_results = get_max_results req.max_results (pos 10) in
      indexed_response (bytes "news") [] req.query
        (indexed_results (λ e. e) (news_items max_results 0) (env.ask (news_params query req)))

  unfoldable pub news_search : Service → SearchRequest → ℤ → ℤ → ℤ → Service × SearchResponse
  news_search svc req now later written =
      through_index_cache env svc
        (env.cache_key (env.trim_space req.query) (bytes "news" ∷ bytes "searxng" ∷ []) req
          (get_max_results req.max_results (pos 10)))
        (news_afresh req) now later written
