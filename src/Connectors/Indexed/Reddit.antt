-- ===== src/Connectors/Indexed/Reddit.antt =====
-- internal/connectors/reddit.go.
pub mod Posts
use source_rudder.Prelude.{
  ℕ, suc, Bool, true, ◌&&◌, ◌||◌, not, Option, none, some, List, [], ◌∷◌, ◌++◌, map, reverse, leb,
  ◌==◌, if◌then◌else◌, elems, ℤ, pos, ◌-ℤ◌, leb_ℤ, Text, bytes, text_eq, is_empty, contains, lookup,
}
use source_rudder.Types.{SearchRequest, SearchResultItem, SearchResponse}
use source_rudder.Normalization.{seen_before}
use source_rudder.Cache.{Service}
use source_rudder.Connectors.Web.{get_max_results}
use source_rudder.Connectors.Api.{show_int}
use source_rudder.Types.{wrap_error}
use source_rudder.Connectors.Indexed.{
  IndexedResult, IndexEnvironment, param_if_any, indexed_results, indexed_response,
  through_index_cache, engine_or_searxng, parse_published_date,
}

-- What url.Parse finds.
pub record RedditUrl : Type 0 where
  pub scheme : Text
  pub has_user : Bool
  pub port : Text
  pub hostname : Text
  pub escaped_path : Text
  pub path : Text

pub record RedditEnvironment : Type 0 where
  pub index : IndexEnvironment
  pub parse_url : Text → Option RedditUrl
  pub equal_fold : Text → Text → Bool
  pub sort_strings : List Text → List Text

-- The bytes after the leading slashes.
unfoldable pub drop_slashes : Text → Text
drop_slashes [] = []
drop_slashes (c ∷ t) = if c == b'/' then drop_slashes t else c ∷ t

-- strings.Trim(path, "/")
unfoldable pub trim_slashes : Text → Text
trim_slashes path = reverse (drop_slashes (reverse (drop_slashes path)))

abbrev add_to_first : ℕ → List Text → List Text
add_to_first c [] = (c ∷ []) ∷ []
add_to_first c (s ∷ ss) = (c ∷ s) ∷ ss

-- strings.Split(path, "/")
unfoldable pub split_slashes : Text → List Text
split_slashes [] = [] ∷ []
split_slashes (c ∷ t) =
    let rest = split_slashes t in if c == b'/' then [] ∷ rest else add_to_first c rest

abbrev pub is_base36_byte : ℕ → Bool
is_base36_byte c =
    (leb b'0' c && leb c b'9') || (leb b'a' c && leb c b'z') || (leb b'A' c && leb c b'Z')

unfoldable pub all_base36 : Text → Bool
all_base36 [] = true
all_base36 (c ∷ t) = is_base36_byte c && all_base36 t

unfoldable pub is_base36_id : Text → Bool
is_base36_id value = not (is_empty value) && all_base36 value

unfoldable pub is_reddit_host : Text → Bool
is_reddit_host host =
    text_eq host (bytes "reddit.com")
    || text_eq host (bytes "www.reddit.com")
    || text_eq host (bytes "old.reddit.com")
    || text_eq host (bytes "np.reddit.com")

unfoldable pub post_url : Text → Text → Text
post_url subreddit id =
    bytes "https://www.reddit.com/r/" ++ (subreddit ++ (bytes "/comments/" ++ (id ++ bytes "/")))

module _ (env : RedditEnvironment) where
  -- The checks on the segments of the path.
  unfoldable pub post_of_segments : List Text → Option Text
  post_of_segments (r ∷ subreddit ∷ comments ∷ id ∷ rest) =
      if env.equal_fold r (bytes "r")
        && (not (is_empty subreddit)
            && (env.equal_fold comments (bytes "comments") && is_base36_id id))
      then some (post_url subreddit (env.index.to_lower id))
      else none
  post_of_segments _ = none

  unfoldable pub post_of_parts : RedditUrl → Option Text
  post_of_parts u =
      if (not (text_eq u.scheme (bytes "http")) && not (text_eq u.scheme (bytes "https")))
        || (u.has_user || not (is_empty u.port))
      then none
      else if not (is_reddit_host (env.index.to_lower u.hostname))
      then none
      else if contains u.escaped_path (bytes "%")
      then none
      else post_of_segments (split_slashes (trim_slashes u.path))

  unfoldable pub canonical_reddit_post_url : Text → Option Text
  canonical_reddit_post_url raw = elim (env.parse_url raw) [
    | none ↦ none
    | some u ↦ post_of_parts u
  ]

  -- The result made of an item, when `kept` results are there.
  unfoldable pub post_item : ℤ → ℕ → IndexedResult → Text → SearchResultItem
  post_item max_results kept item canonical = record {
    title = item.title;
    url = canonical;
    snippet = item.content;
    source = engine_or_searxng item.engine;
    engine = item.engine;
    type = bytes "post";
    score = max_results -ℤ pos kept;
    published_at = parse_published_date env.index item.published_date;
    author = [];
    tags = [];
    citation_id = bytes "reddit:" ++ canonical;
    canonical_url = canonical;
  }

  -- The loop over the decoded items, when `kept` results are there and the URLs `seen` were met.
  unfoldable pub post_items : ℤ → ℕ → List Text → List IndexedResult → List SearchResultItem
  post_items max_results kept seen [] = []
  post_items max_results kept seen (item ∷ items) =
      if leb_ℤ max_results (pos kept) then [] else elim (canonical_reddit_post_url item.url) [
        | none ↦ post_items max_results kept seen items
        | some canonical ↦
            if seen_before canonical seen
            then post_items max_results kept seen items
            else post_item max_results kept item canonical
              ∷ post_items max_results (suc kept) (canonical ∷ seen) items
      ]

  unfoldable pub reddit_params : Text → SearchRequest → List (Text × Text)
  reddit_params query req =
      (bytes "q", query ++ bytes " site:reddit.com")
      ∷ (bytes "format", bytes "json")
      ∷ (bytes "engines", [])
      ∷ (param_if_any (bytes "language") req.language
          ++ (param_if_any (bytes "time_range") req.time_range
              ++ (if req.safe_search then (bytes "safesearch", bytes "1") ∷ [] else [])))

  unfoldable pub filter_dimensions : SearchRequest → List Text → List Text
  filter_dimensions req [] = []
  filter_dimensions req (key ∷ keys) =
      (bytes "filter="
        ++ (key ++ (bytes "=" ++ elim (lookup key req.filters) [ none ↦ [] | some value ↦ value ])))
      ∷ filter_dimensions req keys

  unfoldable pub reddit_cache_dimensions : ℤ → SearchRequest → List Text
  reddit_cache_dimensions max_results req =
      bytes "reddit_searxng"
      ∷ (bytes "limit=" ++ show_int max_results)
      ∷ (bytes "language=" ++ req.language)
      ∷ (bytes "safesearch=" ++ (if req.safe_search then bytes "true" else bytes "false"))
      ∷ filter_dimensions req (env.sort_strings (map (λ f. f.0) req.filters))

  unfoldable pub reddit_afresh : SearchRequest → SearchResponse
  reddit_afresh req =
      let query = env.index.trim_space req.query in
      let max_results = get_max_results req.max_results (pos 10) in
      indexed_response (bytes "reddit") (bytes "searxng_reddit_index") req.query (
        indexed_results (wrap_error (bytes "searxng request build failed: "))
          (post_items max_results 0 []) (env.index.ask (reddit_params query req)))

  -- A response from the cache without results gets an empty slice.
  unfoldable pub reddit_search : Service → SearchRequest → ℤ → ℤ → ℤ → Service × SearchResponse
  reddit_search svc req now later written =
      let max_results = get_max_results req.max_results (pos 10) in
      let (t, resp) =
        through_index_cache env.index svc
          (env.index.cache_key (env.index.trim_space req.query)
            (reddit_cache_dimensions max_results req) req max_results)
          (reddit_afresh req) now later written in
      (t, record resp { results = some (elems resp.results) })
