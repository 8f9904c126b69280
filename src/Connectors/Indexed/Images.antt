-- ===== src/Connectors/Indexed/Images.antt =====
-- internal/connectors/images.go. Text is valid UTF-8 once it is decoded from JSON, so a private-use
-- rune is three bytes; SHA-256 is a parameter.
pub mod Snippet
pub mod Best
pub mod Results
use source_rudder.Prelude.{
  ℕ, suc, ◌+◌, ◌*◌, Bool, false, ◌&&◌, ◌||◌, not, Option, none, some, List, [], ◌∷◌, ◌++◌, leb,
  ◌==◌, if◌then◌else◌, length, ℤ, pos, ◌-ℤ◌, leb_ℤ, Text, bytes, has_suffix,
}
use source_rudder.Types.{SearchRequest, SearchResultItem, SearchResponse}
use source_rudder.Normalization.{seen_before}
use source_rudder.Cache.{Service}
use source_rudder.Connectors.Web.{get_max_results}
use source_rudder.Connectors.Api.{show_int}
use source_rudder.Connectors.Indexed.{
  IndexedResult, IndexEnvironment, param_if_any, indexed_results, indexed_response,
  through_index_cache, engine_or_searxng,
}
use source_rudder.Connectors.Indexed.Images.Snippet.{
  ImageUrl, ImageEnvironment, is_http_parts, is_http_url, canonical_image_url,
  bounded_image_content, image_citation_id, image_snippet,
}

pub record RankedImageCandidate : Type 0 where
  pub item : IndexedResult
  pub image_url : Text
  pub canonical_url : Text
  pub relevance : ℕ
  pub index : ℕ

-- normalizeSearxngHighlights: U+E000 and U+E001 are dropped.
unfoldable pub normalize_searxng_highlights : Text → Text
normalize_searxng_highlights [] = []
normalize_searxng_highlights (a ∷ []) = a ∷ []
normalize_searxng_highlights (a ∷ b ∷ []) = a ∷ b ∷ []
normalize_searxng_highlights (a ∷ b ∷ c ∷ t) =
    if (a == 0xee) && ((b == 0x80) && ((c == 0x80) || (c == 0x81)))
    then normalize_searxng_highlights t
    else a ∷ normalize_searxng_highlights (b ∷ c ∷ t)

unfoldable pub image_extensions : List Text
image_extensions =
    bytes ".avif"
    ∷ bytes ".gif"
    ∷ bytes ".jpeg"
    ∷ bytes ".jpg"
    ∷ bytes ".png"
    ∷ bytes ".ppm"
    ∷ bytes ".svg"
    ∷ bytes ".webp"
    ∷ []

unfoldable pub ends_in_one : List Text → Text → Bool
ends_in_one [] path = false
ends_in_one (e ∷ es) path = has_suffix path e || ends_in_one es path

-- The loop of imageTerms, when the terms `seen` were met.
unfoldable pub distinct_terms : List Text → List Text → List Text
distinct_terms seen [] = []
distinct_terms seen (word ∷ words) =
    if seen_before word seen
    then distinct_terms seen words
    else word ∷ distinct_terms (word ∷ seen) words

-- How many of the terms are among the words.
unfoldable pub count_matches : List Text → List Text → ℕ
count_matches [] words = 0
count_matches (term ∷ terms) words =
    let rest = count_matches terms words in if seen_before term words then suc rest else rest

-- A candidate goes before those that are not more relevant.
unfoldable pub insert_candidate :
    RankedImageCandidate → List RankedImageCandidate → List RankedImageCandidate
insert_candidate c [] = c ∷ []
insert_candidate c (d ∷ ds) =
    let rest = insert_candidate c ds in if leb d.relevance c.relevance then c ∷ d ∷ ds else d ∷ rest

-- sort.SliceStable by falling relevance.
unfoldable pub sort_candidates : List RankedImageCandidate → List RankedImageCandidate
sort_candidates [] = []
sort_candidates (c ∷ cs) = insert_candidate c (sort_candidates cs)

-- The loop of deduplicateImageCandidates, when the URLs `seen` were met.
unfoldable pub deduplicate_candidates :
    List Text → List RankedImageCandidate → List RankedImageCandidate
deduplicate_candidates seen [] = []
deduplicate_candidates seen (c ∷ cs) =
    if seen_before c.canonical_url seen
    then deduplicate_candidates seen cs
    else c ∷ deduplicate_candidates (c.canonical_url ∷ seen) cs

abbrev pub deduplicate_image_candidates : List RankedImageCandidate → List RankedImageCandidate
deduplicate_image_candidates cs = deduplicate_candidates [] cs

module _ (env : ImageEnvironment) where
  unfoldable pub is_image_url : Text → Bool
  is_image_url raw = elim (env.parse_url raw) [
    | none ↦ false
    | some u ↦ is_http_parts u && ends_in_one image_extensions (env.index.to_lower u.path)
  ]

  unfoldable pub image_url_for : IndexedResult → Option Text
  image_url_for item =
      if is_http_url env item.img_src
      then some item.img_src
      else if is_http_url env item.thumbnail_src
      then some item.thumbnail_src
      else if is_image_url item.url
      then some item.url
      else none

  unfoldable pub image_words : Text → List Text
  image_words text = env.fields (env.index.to_lower text)

  unfoldable pub image_terms : Text → List Text
  image_terms query = distinct_terms [] (image_words query)

  unfoldable pub image_term_matches : List Text → Text → ℕ
  image_term_matches terms text = count_matches terms (image_words text)

  unfoldable pub image_relevance : Text → IndexedResult → ℕ
  image_relevance query item =
      let terms = image_terms query in
      if length terms == 0
      then 0
      else image_term_matches terms item.title * 10
        + image_term_matches terms (bounded_image_content env item.content)

  unfoldable pub normalized : IndexedResult → IndexedResult
  normalized item = record item {
    title = normalize_searxng_highlights item.title;
    content = normalize_searxng_highlights item.content;
  }

  -- The candidate made of an item that is normalized, if it has the URL of an image.
  unfoldable pub candidate_of : Text → ℕ → IndexedResult → Option RankedImageCandidate
  candidate_of query i item = elim (image_url_for item) [
    | none ↦ none
    | some url ↦ elim (canonical_image_url env url) [
      | none ↦ none
      | some canonical ↦ some (record {
        item = item;
        image_url = canonical;
        canonical_url = canonical;
        relevance = image_relevance query item;
        index = i;
      })
    ]
  ]

  -- The loop over the decoded items, from the index i on.
  unfoldable pub image_candidates : Text → ℕ → List IndexedResult → List RankedImageCandidate
  image_candidates query i [] = []
  image_candidates query i (item ∷ items) =
      let rest = image_candidates query (suc i) items in
      elim (candidate_of query i (normalized item)) [ none ↦ rest | some c ↦ c ∷ rest ]

  -- The loop over the candidates, from the index i on.
  unfoldable pub image_items : ℤ → ℕ → List RankedImageCandidate → List SearchResultItem
  image_items max_results i [] = []
  image_items max_results i (c ∷ cs) =
      let rest = image_items max_results (suc i) cs in
      if leb_ℤ max_results (pos i)
      then []
      else record {
        title = c.item.title;
        url = c.image_url;
        snippet =
            image_snippet env c.item.content c.item.url c.item.thumbnail_src c.image_url
              c.item.source (engine_or_searxng c.item.engine);
        source = engine_or_searxng c.item.engine;
        engine = c.item.engine;
        type = bytes "image";
        score = max_results -ℤ pos i;
        published_at = none;
        author = [];
        tags = [];
        citation_id = image_citation_id env c.canonical_url;
        canonical_url = c.canonical_url;
      }
        ∷ rest

  -- The results that searchSearxng makes of what it decodes.
  unfoldable pub images_found : Text → ℤ → List IndexedResult → List SearchResultItem
  images_found query max_results items =
      image_items max_results 0
        (deduplicate_image_candidates (sort_candidates (image_candidates query 0 items)))

  unfoldable pub image_params : Text → SearchRequest → List (Text × Text)
  image_params query req =
      (bytes "q", query)
      ∷ (bytes "format", bytes "json")
      ∷ (bytes "categories", bytes "images")
      ∷ (bytes "engines", [])
      ∷ (param_if_any (bytes "language") req.language
          ++ (param_if_any (bytes "time_range") req.time_range
              ++ ((bytes "safesearch", if req.safe_search then bytes "1" else bytes "0") ∷ [])))

  unfoldable pub image_cache_key : Text → ℤ → SearchRequest → Text
  image_cache_key query max_results req =
      env.index.cache_key query
        (bytes "images"
          ∷ bytes "searxng"
          ∷ (bytes "max_results=" ++ show_int max_results)
          ∷ (bytes "language=" ++ req.language)
          ∷ (bytes "safe_search=" ++ (if req.safe_search then bytes "true" else bytes "false"))
          ∷ [])
        req max_results

  unfoldable pub images_afresh : SearchRequest → SearchResponse
  images_afresh req =
      let query = env.index.trim_space req.query in
      let max_results = get_max_results req.max_results (pos 10) in
      indexed_response (bytes "images") [] req.query (
        indexed_results (λ e. e) (images_found query max_results)
          (env.index.ask (image_params query req)))

  unfoldable pub images_search : Service → SearchRequest → ℤ → ℤ → ℤ → Service × SearchResponse
  images_search svc req now later written =
      through_index_cache env.index svc
        (image_cache_key (env.index.trim_space req.query) (get_max_results req.max_results (pos 10))
          req)
        (images_afresh req) now later written
