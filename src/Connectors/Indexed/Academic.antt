-- ===== src/Connectors/Indexed/Academic.antt =====
-- internal/connectors/academic.go.
use source_rudder.Prelude.{
  ℕ, suc, Bool, ◌||◌, List, [], ◌∷◌, ◌++◌, if◌then◌else◌, ℤ, pos, ◌-ℤ◌, leb_ℤ, Text, bytes,
  is_empty, contains, show_nat,
}
use source_rudder.Types.{SearchRequest, SearchResultItem, SearchResponse}
use source_rudder.Cache.{Service}
use source_rudder.Connectors.Web.{get_max_results, extract_domain}
use source_rudder.Connectors.Indexed.{
  IndexedResult, IndexEnvironment, param_if_any, indexed_results, indexed_response,
  through_index_cache, truncate_snippet, engine_or_searxng, mentions, parse_published_date,
}

unfoldable pub academic_hosts : List Text
academic_hosts =
    bytes "arxiv.org"
    ∷ bytes "scholar.google"
    ∷ bytes "semanticscholar.org"
    ∷ bytes "researchgate.net"
    ∷ bytes "academia.edu"
    ∷ bytes "pubmed.ncbi.nlm.nih.gov"
    ∷ bytes "ieee.org"
    ∷ bytes "acm.org"
    ∷ bytes "springer.com"
    ∷ bytes "nature.com"
    ∷ bytes "sciencedirect.com"
    ∷ bytes "wiley.com"
    ∷ bytes "arxiv.org/abs"
    ∷ bytes "doi.org"
    ∷ []

module _ (env : IndexEnvironment) where
  unfoldable pub is_academic_url : Text → Bool
  is_academic_url url =
      let lower = env.to_lower url in
      mentions academic_hosts lower
      || contains lower (bytes "pdf")
      || contains lower (bytes "paper")
      || contains lower (bytes "research")

  -- The loop over the decoded items, from the index i on.
  unfoldable pub academic_items : ℤ → ℕ → List IndexedResult → List SearchResultItem
  academic_items max_results i [] = []
  academic_items max_results i (item ∷ items) =
      let rest = academic_items max_results (suc i) items in
      if leb_ℤ max_results (pos i)
      then []
      else if is_academic_url item.url
      then record {
        title = item.title;
        url = item.url;
        snippet = truncate_snippet item.content;
        source = engine_or_searxng item.engine;
        engine = item.engine;
        type = bytes "paper";
        score = max_results -ℤ pos i;
        published_at = parse_published_date env item.published_date;
        author = [];
        tags = [];
        citation_id =
            bytes "academic:" ++ (extract_domain item.parsed_url ++ (bytes ":" ++ show_nat i));
        canonical_url = [];
      }
        ∷ rest
      else rest

  unfoldable pub academic_params : Text → SearchRequest → List (Text × Text)
  academic_params query req =
      (bytes "q", query)
      ∷ (bytes "format", bytes "json")
      ∷ (bytes "categories", bytes "science")
      ∷ (bytes "engines", bytes "arxiv,duckduckgo")
      ∷ (bytes "language", if is_empty req.language then bytes "en" else req.language)
      ∷ param_if_any (bytes "time_range") req.time_range

  unfoldable pub academic_afresh : SearchRequest → SearchResponse
  academic_afresh req =
      let query = env.trim_space req.query in
      let max_results = get_max_results req.max_results (pos 10) in
      indexed_response (bytes "academic") [] req.query (
        indexed_results (λ e. e) (academic_items max_results 0)
          (env.ask (academic_params query req)))

  unfoldable pub academic_search : Service → SearchRequest → ℤ → ℤ → ℤ → Service × SearchResponse
  academic_search svc req now later written =
      through_index_cache env svc
        (env.cache_key (env.trim_space req.query) (bytes "academic" ∷ bytes "searxng" ∷ []) req
          (get_max_results req.max_results (pos 10)))
        (academic_afresh req) now later written
