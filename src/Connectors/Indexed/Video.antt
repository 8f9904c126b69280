-- ===== src/Connectors/Indexed/Video.antt =====
-- internal/connectors/youtube.go.
use source_rudder.Prelude.{
  ℕ, suc, Bool, Option, none, some, List, [], ◌∷◌, ◌++◌, ◌==◌, if◌then◌else◌, length, take, drop, ℤ,
  pos, ◌-ℤ◌, leb_ℤ, Text, bytes, has_prefix, contains,
}
use source_rudder.Types.{SearchRequest, SearchResultItem, SearchResponse}
use source_rudder.Cache.{Service}
use source_rudder.Connectors.Web.{get_max_results}
use source_rudder.Connectors.Indexed.{
  IndexedResult, IndexEnvironment, param_if_any, indexed_results, indexed_response,
  through_index_cache, truncate_snippet, engine_or_searxng, mentions,
}

unfoldable pub video_hosts : List Text
video_hosts =
    bytes "youtube.com"
    ∷ bytes "youtu.be"
    ∷ bytes "youtube-nocookie.com"
    ∷ bytes "bilibili.com"
    ∷ bytes "vimeo.com"
    ∷ bytes "dailymotion.com"
    ∷ bytes "twitch.tv"
    ∷ []

-- strings.Split(t, sep)[1], for a separator that occurs: what stands between the first and the
-- second occurrence.
unfoldable pub before_next : Text → Text → Text
before_next [] sep = []
before_next (c ∷ t) sep = if has_prefix (c ∷ t) sep then [] else c ∷ before_next t sep

unfoldable pub second_part : Text → Text → Text
second_part [] sep = []
second_part (c ∷ t) sep =
    if has_prefix (c ∷ t) sep
    then before_next (drop (length sep) (c ∷ t)) sep
    else second_part t sep

-- id[:idx], where idx > 0 is the index of the byte; none where it is 0 or the byte is missing.
unfoldable pub cut_at : ℕ → Text → Option Text
cut_at b [] = none
cut_at b (c ∷ t) =
    if c == b then none else elim (position t) [ none ↦ none | some n ↦ some (c ∷ take n t) ]
  where
    position : Text → Option ℕ
    position [] = none
    position (c ∷ t) =
        let rest = position t in
        if c == b then some 0 else elim rest [ none ↦ none | some n ↦ some (suc n) ]

-- The part that follows a separator, up to the first of the bytes that cuts it.
unfoldable pub id_after : Text → List ℕ → Text → Text
id_after sep cuts url = first_cut cuts (second_part url sep)
  where
    first_cut : List ℕ → Text → Text
    first_cut [] id = id
    first_cut (b ∷ bs) id = elim (cut_at b id) [ some cut ↦ cut | none ↦ first_cut bs id ]

unfoldable pub extract_youtube_video_id : Text → Text
extract_youtube_video_id url =
    if contains url (bytes "youtu.be/")
    then id_after (bytes "youtu.be/") (b'?' ∷ b'&' ∷ []) url
    else if contains url (bytes "watch?v=")
    then id_after (bytes "watch?v=") (b'&' ∷ []) url
    else bytes "unknown"

module _ (env : IndexEnvironment) where
  unfoldable pub is_video_url : Text → Bool
  is_video_url url = mentions video_hosts (env.to_lower url)

  -- The loop over the decoded items, from the index i on, when `kept` results are there.
  unfoldable pub video_items : ℤ → ℕ → ℕ → List IndexedResult → List SearchResultItem
  video_items max_results i kept [] = []
  video_items max_results i kept (item ∷ items) =
      if leb_ℤ max_results (pos i)
      then []
      else if is_video_url item.url
      then record {
        title = item.title;
        url = item.url;
        snippet = truncate_snippet item.content;
        source = engine_or_searxng item.engine;
        engine = item.engine;
        type = bytes "video";
        score = max_results -ℤ pos kept;
        published_at = none;
        author = [];
        tags = [];
        citation_id = bytes "youtube:" ++ extract_youtube_video_id item.url;
        canonical_url = [];
      }
        ∷ video_items max_results (suc i) (suc kept) items
      else video_items max_results (suc i) kept items

  unfoldable pub video_params : Text → SearchRequest → List (Text × Text)
  video_params query req =
      (bytes "q", query)
      ∷ (bytes "format", bytes "json")
      ∷ (bytes "engines", bytes "youtube,brave")
      ∷ param_if_any (bytes "time_range") req.time_range

  unfoldable pub video_afresh : SearchRequest → SearchResponse
  video_afresh req =
      let query = env.trim_space req.query in
      let max_results = get_max_results req.max_results (pos 10) in
      indexed_response (bytes "youtube") [] req.query
        (indexed_results (λ e. e) (video_items max_results 0 0) (env.ask (video_params query req)))

  unfoldable pub video_search : Service → SearchRequest → ℤ → ℤ → ℤ → Service × SearchResponse
  video_search svc req now later written =
      through_index_cache env svc
        (env.cache_key (env.trim_space req.query) (bytes "youtube" ∷ bytes "searxng" ∷ []) req
          (get_max_results req.max_results (pos 10)))
        (video_afresh req) now later written
