-- ===== src/Connectors/Web.antt =====
-- internal/connectors/web.go. The HTTP exchange with SearXNG, JSON, strings.TrimSpace and the
-- generation of the cache key are parameters.
pub mod Cached
pub mod Limit
use source_rudder.Prelude.{
  ℕ, suc, true, not, Option, none, some, List, [], ◌∷◌, ◌++◌, ltb, if◌then◌else◌, length, ℤ, pos,
  ◌-ℤ◌, ltb_ℤ, leb_ℤ, Text, bytes, is_empty,
}
use source_rudder.Types.{SearchRequest, SearchResultItem, SearchResponse, no_response}
use source_rudder.Cache
use source_rudder.Cache.{Service}
use source_rudder.Connectors.Degradation.{
  SearchError, unresponsive, new_searxng_unresponsive_error, record_searxng_error,
  cache_searxng_response,
}

-- The values of parsed_url that extractDomain tells apart.
pub data ParsedUrl : Type 0 where
  mapping : Option Text → ParsedUrl
  plain : Text → ParsedUrl
  unparsed : ParsedUrl

pub record SearxngItem : Type 0 where
  pub title : Text
  pub url : Text
  pub content : Text
  pub engine : Text
  pub parsed_url : ParsedUrl

-- What is decoded from SearXNG's answer, or the error before that.
pub data SearxngAnswer : Type 0 where
  failed : SearchError → SearxngAnswer
  decoded : List SearxngItem → List (List (Option Text)) → SearxngAnswer

pub record WebEnvironment : Type 0 where
  pub searxng_url : Text
  pub trim_space : Text → Text
  pub cache_key : Text → SearchRequest → ℤ → Text
  pub ask : Text → SearchRequest → SearxngAnswer
  pub marshal : SearchResponse → Option Text
  pub unmarshal : Text → Option SearchResponse

unfoldable pub extract_domain : ParsedUrl → Text
extract_domain (mapping (some domain)) = domain
extract_domain (mapping none) = bytes "unknown"
extract_domain (plain v) = v
extract_domain unparsed = bytes "unknown"

-- getMaxResults of github.go.
unfoldable pub get_max_results : ℤ → ℤ → ℤ
get_max_results max default =
    if leb_ℤ max (pos 0) then default else if ltb_ℤ (pos 100) max then pos 100 else max

-- The loop over the decoded items, from the index i on.
unfoldable pub web_items : ℤ → ℕ → List SearxngItem → List SearchResultItem
web_items max_results i [] = []
web_items max_results i (item ∷ items) =
    let rest = web_items max_results (suc i) items in
    if leb_ℤ max_results (pos i)
    then []
    else record {
      title = item.title;
      url = item.url;
      snippet = item.content;
      source = bytes "searxng";
      engine = item.engine;
      type = bytes "web";
      score = max_results -ℤ pos i;
      published_at = none;
      author = [];
      tags = [];
      citation_id = bytes "web:" ++ extract_domain item.parsed_url;
      canonical_url = [];
    }
      ∷ rest

unfoldable pub search_searxng : ℤ → SearxngAnswer → List SearchResultItem × Option SearchError
search_searxng max_results (failed e) = ([], some e)
search_searxng max_results (decoded items engines) = (
  web_items max_results 0 items,
  if ltb 0 (length engines)
      then some (unresponsive (new_searxng_unresponsive_error engines))
      else none,
)

abbrev pub unconfigured : SearchResultItem
unconfigured = record {
  title = bytes "SearxNG not configured";
  url = [];
  snippet = bytes "Web search requires SearxNG to be configured. Set --searxng-url flag.";
  source = bytes "searxng";
  engine = [];
  type = bytes "web";
  score = pos 0;
  published_at = none;
  author = [];
  tags = [];
  citation_id = bytes "searxng:unconfigured";
  canonical_url = [];
}

module _ (env : WebEnvironment) where
  -- The response of a search that is not answered from the cache, and the counters.
  unfoldable pub search_afresh : SearchRequest → List (Text × Text) × SearchResponse
  search_afresh req =
      let max_results = get_max_results req.max_results (pos 10) in
      let (results, e) =
        if is_empty env.searxng_url
        then (unconfigured ∷ [], none)
        else search_searxng max_results (env.ask (env.trim_space req.query) req) in
      record_searxng_error (bytes "web") results e (record no_response {
        query = req.query;
        results = some results;
        strategy = bytes "searxng";
        sources_used = some (bytes "searxng" ∷ []);
      })

  -- What Search does with the answer of the cache: `written` is the moment of the write.
  unfoldable pub use_cached :
      Text → Service × Option Text → SearchRequest → ℤ → Service × SearchResponse
  use_cached key (svc, payload) req written =
      let fresh : SearchResponse = (search_afresh req).1 in
      let searched : Service × SearchResponse =
        (cache_searxng_response env.marshal svc key fresh written, fresh) in
      elim payload [
        | none ↦ searched
        | some text ↦ elim (env.unmarshal text) [
          | none ↦ searched
          | some resp ↦ (svc, record resp { cached = true })
        ]
      ]

  -- Search; the moments are those of the two parts of Get and of the write.
  unfoldable pub web_search : Service → SearchRequest → ℤ → ℤ → ℤ → Service × SearchResponse
  web_search svc req now later written =
      let key =
        env.cache_key (env.trim_space req.query) req (get_max_results req.max_results (pos 10)) in
      let (t, found) = Cache.get svc key now later in
      use_cached key (t, elim found [ none ↦ none | some c ↦ some c.payload ]) req written
