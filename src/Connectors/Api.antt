-- ===== src/Connectors/Api.antt =====
-- internal/connectors: what the connectors to an API with a cache of their own share (github.go,
-- npm.go, nuget.go, dockerhub.go, stackoverflow.go, pypi.go), and GenerateCacheKey of
-- internal/cache/cache.go. The HTTP exchange, JSON, SHA-256, net/url and strings.TrimSpace are
-- parameters; a cache is always configured.
pub mod GitHub
pub mod Packages
pub mod PyPi
pub mod Keys
pub mod Again
mod Tests
use source_rudder.Prelude.{
  ℕ, suc, Bool, true, ◌&&◌, not, Option, none, some, List, [], ◌∷◌, ◌++◌, leb, ◌==◌, if◌then◌else◌,
  length, take, ℤ, pos, negsuc, Text, bytes, show_nat,
}
use source_rudder.Types.{
  SearchRequest, SearchResultItem, SearchResponse, no_response, Failure, plain_error, wrap_error,
  Result, ok, err,
}
use source_rudder.Cache
use source_rudder.Cache.{Service}
use source_rudder.Connectors.Degradation.{other, record_degraded}

-- %d of an integer.
unfoldable pub show_int : ℤ → Text
show_int (pos n) = show_nat n
show_int (negsuc n) = bytes "-" ++ show_nat (suc n)

-- What becomes of a request to an API: it cannot be built, it fails, or it is answered with a
-- status and a body that is decoded or not.
pub data ApiAnswer {ℓ} (A : Type ℓ) : Type ℓ where
  unbuilt : Failure → ApiAnswer A
  failed : Failure → ApiAnswer A
  replied : ℕ → Result A → ApiAnswer A

-- What the methods that send a request return; `limited` tells whether 429 has a text of its own.
unfoldable pub api_results {ℓ} :
    {A : Type ℓ}
    → Bool
    → (A → List SearchResultItem)
    → ApiAnswer A
    → List SearchResultItem × Option Failure
api_results limited items (unbuilt e) = ([], some e)
api_results limited items (failed e) = ([], some (wrap_error (bytes "request failed: ") e))
api_results limited items (replied status (err e)) =
    if limited && (status == 429)
    then ([], some (plain_error (bytes "rate limited")))
    else if leb 400 status
    then ([], some (plain_error (bytes "API error: " ++ show_nat status)))
    else ([], some e)
api_results limited items (replied status (ok decoded)) =
    if limited && (status == 429)
    then ([], some (plain_error (bytes "rate limited")))
    else if leb 400 status
    then ([], some (plain_error (bytes "API error: " ++ show_nat status)))
    else (items decoded, none)

-- The response of a search that asks the API, and the counters.
unfoldable pub api_response :
    Text → Text → List SearchResultItem × Option Failure → List (Text × Text) × SearchResponse
api_response source query (results, e) =
    let resp : SearchResponse = record no_response {
      query = query;
      results = some results;
      sources_used = some (source ∷ []);
    } in
    elim e [
      | none ↦ ([], resp)
      | some f ↦
          if length results == 0
          then record_degraded source (bytes "transport") resp (other f)
          else ([], resp)
    ]

-- The parameters that these connectors share.
pub record ApiEnvironment : Type 0 where
  -- The hexadecimal form of a SHA-256 sum.
  pub sha256_hex : Text → Text
  pub trim_space : Text → Text
  pub query_escape : Text → Text
  pub marshal : SearchResponse → Option Text
  pub unmarshal : Text → Option SearchResponse

unfoldable pub concat_texts : List Text → Text
concat_texts [] = []
concat_texts (s ∷ ss) = s ++ concat_texts ss

-- The bytes that GenerateCacheKey hashes.
unfoldable pub hashed_text : Text → List Text → Text → Text
hashed_text query sources time_range =
    query ++ (concat_texts sources ++ (bytes "|tr=" ++ time_range))

-- The searches that have a cache key of their own.
pub data ApiSearch : Type 0 where
  github_repo github_pr github_issue npm nuget pypi dockerhub stackoverflow : ApiSearch

-- The sources that a search passes to GenerateCacheKey.
unfoldable pub key_sources : ApiSearch → List Text
key_sources github_repo = bytes "github" ∷ bytes "repo" ∷ []
key_sources github_pr = bytes "github" ∷ bytes "pr" ∷ []
key_sources github_issue = bytes "github" ∷ bytes "issue" ∷ []
key_sources npm = bytes "npm" ∷ []
key_sources nuget = bytes "nuget" ∷ []
key_sources pypi = bytes "pypi" ∷ []
key_sources dockerhub = bytes "dockerhub" ∷ []
key_sources stackoverflow = bytes "stackoverflow" ∷ []

module _ (env : ApiEnvironment) where
  unfoldable pub generate_cache_key : Text → List Text → Text → Text
  generate_cache_key query sources time_range =
      bytes "cache:" ++ take 16 (env.sha256_hex (hashed_text query sources time_range))

  -- GenerateSearchCacheKey; `encode` is the JSON of the sources and a request.
  unfoldable pub generate_search_cache_key :
      (List Text → SearchRequest → Text) → Text → List Text → SearchRequest → ℤ → Text
  generate_search_cache_key encode query sources req limit =
      bytes "cache:v2:"
      ++ take 16
          (env.sha256_hex (encode sources (record req { query = query; max_results = limit })))

  -- The key of a search for a query that is trimmed, and escaped for GitHub.
  unfoldable pub key_for : ApiSearch → Text → Text
  key_for search query = generate_cache_key query (key_sources search) []

  -- A response that cannot be encoded is not cached.
  unfoldable pub cache_results : Service → Text → SearchResponse → ℤ → Service
  cache_results svc key resp now = elim (env.marshal resp) [
    | none ↦ svc
    | some data_ ↦ Cache.set svc key data_ resp.sources_used now
  ]

  -- What a Search does with the answer of the cache, where it would answer `fresh` itself.
  unfoldable pub use_found :
      Text → Service × Option Text → SearchResponse → ℤ → Service × SearchResponse
  use_found key (svc, payload) fresh written =
      let asked : Service × SearchResponse = (cache_results svc key fresh written, fresh) in
      elim payload [
        | none ↦ asked
        | some text ↦ elim (env.unmarshal text) [
          | none ↦ asked
          | some resp ↦ (svc, record resp { cached = true })
        ]
      ]

  -- The moments are those of the two parts of Get and of the write.
  unfoldable pub through_cache :
      Service → Text → SearchResponse → ℤ → ℤ → ℤ → Service × SearchResponse
  through_cache svc key fresh now later written =
      let (t, found) = Cache.get svc key now later in
      use_found key (t, elim found [ none ↦ none | some c ↦ some c.payload ]) fresh written
