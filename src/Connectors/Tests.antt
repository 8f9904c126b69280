-- ===== src/Connectors/Tests.antt =====
-- The web connector with an instance of SearXNG that answers with one item.
use source_rudder.Prelude.{
  ◌≡◌, refl, ap, true, false, Option, none, some, [], ◌∷◌, arith, pos, ◌+ℤ◌, ◌*ℤ◌, ◌<ℤ◌, Text,
  bytes, lookup,
}
use source_rudder.Types.{SearchRequest, SearchResponse}
use source_rudder.Cache.{read, new_service, get, effective_ttl}
use source_rudder.Cache.View.{IsValid}
use source_rudder.Connectors.Web.{
  search_searxng, WebEnvironment, decoded, plain, search_afresh, web_search,
}
use source_rudder.Connectors.Degradation.{record_searxng_error}
use source_rudder.Connectors.Web.Cached.{key_of, cap_of, web_search_again}

abbrev request : SearchRequest
request = record {
  query = bytes "go";
  sources = [];
  max_results = pos 0;
  language = [];
  safe_search = false;
  time_range = [];
  format = [];
  cache_policy = [];
  deep_research = false;
  filters = [];
}

-- Decoding gives back the response that a search with this instance finds.
abbrev asking : (Text → Option SearchResponse) → WebEnvironment
asking unmarshal = record {
  searxng_url = bytes "http://searxng:8080";
  trim_space = λ s. s;
  cache_key = λ query _ _. query;
  ask = λ _ _.
      decoded
        (record {
          title = bytes "The Go language";
          url = bytes "https://go.dev/";
          content = bytes "Go";
          engine = bytes "brave";
          parsed_url = plain (bytes "go.dev");
        }
          ∷ [])
        [];
  marshal = λ _. some (bytes "{}");
  unmarshal = unmarshal;
}

abbrev environment : WebEnvironment
environment = asking λ _. some (search_afresh (asking λ _. none) request).1

found_once : (search_afresh (asking λ _. none) request).1 ≡ (search_afresh environment request).1
unfolding search_afresh
found_once = refl

empty-IsValid : IsValid (new_service (pos 60))
unfolding new_service
empty-IsValid = record { distinct = tt; keyed = tt }

nothing_cached : (get (new_service (pos 60)) (key_of environment request) (pos 1) (pos 1)).1 ≡ none
unfolding get read new_service lookup
nothing_cached = refl

still_alive :
    pos 3
    <ℤ pos 2
      +ℤ effective_ttl
          (get (new_service (pos 60)) (key_of environment request) (pos 1) (pos 1)).0
          (cap_of (search_afresh environment request).1)
unfolding effective_ttl get read new_service lookup search_afresh search_searxng
    record_searxng_error bytes ◌+ℤ◌ ◌*ℤ◌
still_alive = omega arith

again_example :
    (web_search environment
      (web_search environment (new_service (pos 60)) request (pos 1) (pos 1) (pos 2)).0
      request
      (pos 3)
      (pos 3)
      (pos 4)).1
    ≡ record ((search_afresh environment request).1) { cached = true }
again_example =
    web_search_again environment request (new_service (pos 60)) (pos 1) (pos 1) (pos 2) (pos 3)
      (pos 3) (pos 4) (bytes "{}") empty-IsValid nothing_cached refl (ap some found_once)
      (omega arith) (omega arith) still_alive
