-- ===== src/Connectors/Indexed.antt =====
-- internal/connectors: what the connectors to an index of SearXNG share (youtube.go, news.go,
-- academic.go, reddit.go, images.go). The HTTP exchange, JSON, net/url, the dates, the functions on
-- runes and GenerateSearchCacheKey are parameters.
pub mod Video
pub mod News
pub mod Academic
pub mod Reddit
pub mod Images
pub mod Limit
mod Tests
use source_rudder.Prelude.{
  Bool, true, false, ◌||◌, not, Option, none, some, List, [], ◌∷◌, ◌++◌, ltb, leb, if◌then◌else◌,
  length, take, ℤ, Text, bytes, is_empty, contains, show_nat,
}
use source_rudder.Types.{
  SearchRequest, SearchResultItem, SearchResponse, no_response, Failure, plain_error, wrap_error,
  Result, ok, err,
}
use source_rudder.Cache
use source_rudder.Cache.{Service}
use source_rudder.Connectors.Degradation.{
  SearchError, unresponsive, other, new_searxng_unresponsive_error, record_searxng_error,
  cache_searxng_response,
}
use source_rudder.Connectors.Web.{ParsedUrl}
use source_rudder.Connectors.Api.{ApiAnswer, unbuilt, failed, replied}

-- The fields that one of these connectors decodes of a result.
pub record IndexedResult : Type 0 where
  pub title : Text
  pub url : Text
  pub content : Text
  pub source : Text
  pub engine : Text
  pub img_src : Text
  pub thumbnail_src : Text
  pub parsed_url : ParsedUrl
  pub published_date : Text

-- The results and the unresponsive engines.
abbrev pub Decoded : Type 0
Decoded = List IndexedResult × List (List (Option Text))

pub record IndexEnvironment : Type 0 where
  pub to_lower : Text → Text
  pub trim_space : Text → Text
  -- The query, the sources, the request and the limit.
  pub cache_key : Text → List Text → SearchRequest → ℤ → Text
  -- GET /search with these parameters.
  pub ask : List (Text × Text) → ApiAnswer Decoded
  pub marshal : SearchResponse → Option Text
  pub unmarshal : Text → Option SearchResponse
  -- time.Parse of a layout and a text.
  pub parse_time : Text → Text → Option ℤ

-- A parameter that is sent if it is not empty.
unfoldable pub param_if_any : Text → Text → List (Text × Text)
param_if_any name value = if is_empty value then [] else (name, value) ∷ []

-- What searchSearxng returns; `built` is the error of a request that cannot be built.
unfoldable pub indexed_results :
    (Failure → Failure)
    → (List IndexedResult → List SearchResultItem)
    → ApiAnswer Decoded
    → List SearchResultItem × Option SearchError
indexed_results built items (unbuilt e) = ([], some (other (built e)))
indexed_results built items (failed e) =
    ([], some (other (wrap_error (bytes "searxng request failed: ") e)))
indexed_results built items (replied status (err e)) =
    if leb 400 status
    then ([], some (other (plain_error (bytes "searxng error: " ++ show_nat status))))
    else ([], some (other (wrap_error (bytes "searxng decode error: ") e)))
indexed_results built items (replied status (ok (results, engines))) =
    if leb 400 status
    then ([], some (other (plain_error (bytes "searxng error: " ++ show_nat status))))
    else (
      items results,
      if ltb 0 (length engines)
          then some (unresponsive (new_searxng_unresponsive_error engines))
          else none,
    )

-- The response of a search that is not answered from the cache.
unfoldable pub indexed_response :
    Text → Text → Text → List SearchResultItem × Option SearchError → SearchResponse
indexed_response source strategy query (results, e) =
    (record_searxng_error source results e (record no_response {
      query = query;
      results = some results;
      sources_used = some (source ∷ []);
      strategy = strategy;
    })).1

module _ (env : IndexEnvironment) where
  -- What a Search does with the answer of the cache, where it would answer `fresh` itself.
  unfoldable pub use_indexed :
      Text → Service × Option Text → SearchResponse → ℤ → Service × SearchResponse
  use_indexed key (svc, payload) fresh written =
      let asked : Service × SearchResponse =
        (cache_searxng_response env.marshal svc key fresh written, fresh) in
      elim payload [
        | none ↦ asked
        | some text ↦ elim (env.unmarshal text) [
          | none ↦ asked
          | some resp ↦ (svc, record resp { cached = true })
        ]
      ]

  -- The moments are those of the two parts of Get and of the write.
  unfoldable pub through_index_cache :
      Service → Text → SearchResponse → ℤ → ℤ → ℤ → Service × SearchResponse
  through_index_cache svc key fresh now later written =
      let (t, found) = Cache.get svc key now later in
      use_indexed key (t, elim found [ none ↦ none | some c ↦ some c.payload ]) fresh written

  -- parsePublishedDate
  unfoldable pub parse_published_date : Text → Option ℤ
  parse_published_date date =
      if is_empty date then none else elim (env.parse_time (bytes "2006-01-02") date) [
        | some t ↦ some t
        | none ↦ elim (env.parse_time (bytes "2006-01-02T15:04:05Z") date) [
          | some t ↦ some t
          | none ↦ env.parse_time (bytes "2006-01-02T15:04:05") date
        ]
      ]

-- truncateSnippet, which cuts bytes.
unfoldable pub truncate_snippet : Text → Text
truncate_snippet snippet =
    if ltb 300 (length snippet) then take 300 snippet ++ bytes "..." else snippet

-- The engine that a result names, or SearXNG.
unfoldable pub engine_or_searxng : Text → Text
engine_or_searxng engine = if is_empty engine then bytes "searxng" else engine

-- Whether one of the hosts occurs in a text.
unfoldable pub mentions : List Text → Text → Bool
mentions [] t = false
mentions (host ∷ hosts) t = contains t host || mentions hosts t
