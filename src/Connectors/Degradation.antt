-- ===== src/Connectors/Degradation.antt =====
-- internal/connectors/degradation.go. JSON encoding is a parameter.
use source_rudder.Prelude.{
  ℕ, true, Option, none, some, List, [], ◌∷◌, ◌++◌, ◌==◌, if◌then◌else◌, length, get_elem?,
  append_one, ℤ, pos, ◌*ℤ◌, Text, bytes, is_empty, join, show_nat,
}
use source_rudder.Types.{SearchResultItem, SearchResponse, Failure}
use source_rudder.Cache.{Service, second, set_with_max_ttl}

-- A nanosecond count.
abbrev pub degraded_search_cache_ttl : ℤ
degraded_search_cache_ttl = pos 30 *ℤ second

-- A response that cannot be encoded is not cached.
unfoldable pub cache_searxng_response :
    (SearchResponse → Option Text) → Service → Text → SearchResponse → ℤ → Service
cache_searxng_response marshal svc key resp now = elim (marshal resp) [
  | none ↦ svc
  | some data_ ↦
      set_with_max_ttl svc key data_ resp.sources_used
        (if resp.partial then degraded_search_cache_ttl else pos 0) now
]

pub record UnresponsiveEngine : Type 0 where
  pub name : Text
  pub reason : Text

-- An error of a search: a *searxngUnresponsiveError, or another one.
pub data SearchError : Type 0 where
  unresponsive : List UnresponsiveEngine → SearchError
  other : Failure → SearchError

unfoldable pub engine_texts : List UnresponsiveEngine → List Text
engine_texts [] = []
engine_texts (e ∷ es) = (e.name ++ (bytes ": " ++ e.reason)) ∷ engine_texts es

unfoldable pub error_text : SearchError → Text
error_text (unresponsive engines) =
    bytes "searxng: "
    ++ (show_nat (length engines)
        ++ (bytes " unresponsive engines ["
            ++ (join (engine_texts engines) (bytes ", ") ++ bytes "]")))
error_text (other e) = e.message

-- The i-th element of an entry, if it is a string that is not empty; `none` is any other value.
unfoldable pub text_at : List (Option Text) → ℕ → Text → Text
text_at entry i default = elim (get_elem? entry i) [
  | none ↦ default
  | some none ↦ default
  | some (some t) ↦ if is_empty t then default else t
]

unfoldable pub new_searxng_unresponsive_error : List (List (Option Text)) → List UnresponsiveEngine
new_searxng_unresponsive_error [] = []
new_searxng_unresponsive_error (entry ∷ entries) =
    record {
      name = text_at entry 0 (bytes "unknown engine");
      reason = text_at entry 1 (bytes "unknown reason");
    }
    ∷ new_searxng_unresponsive_error entries

-- recordDegraded; the pair is what the counter is incremented for.
unfoldable pub record_degraded :
    Text → Text → SearchResponse → SearchError → List (Text × Text) × SearchResponse
record_degraded source kind resp e = (
  (source, kind) ∷ [],
  record resp { partial = true; warnings = append_one resp.warnings (error_text e) },
)

unfoldable pub record_searxng_error :
    Text
    → List SearchResultItem
    → Option SearchError
    → SearchResponse
    → List (Text × Text) × SearchResponse
record_searxng_error source results none resp = ([], resp)
record_searxng_error source results (some (unresponsive engines)) resp =
    record_degraded source (bytes "unresponsive_engines") resp (unresponsive engines)
record_searxng_error source results (some (other e)) resp =
    if length results == 0
    then ([], record resp { partial = true; warnings = append_one resp.warnings e.message })
    else ([], resp)
