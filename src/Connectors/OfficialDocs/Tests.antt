-- ===== src/Connectors/OfficialDocs/Tests.antt =====
-- A search for the documentation of Go, over a backend that finds one page of go.dev.
use source_rudder.Prelude.{
  ◌≡◌, refl, false, none, some, [], ◌∷◌, pos, bytes, text_eq, lookup, insert,
}
use source_rudder.Types.{SearchRequest, SearchResultItem, SearchResponse, no_response, ok}
use source_rudder.Connectors.Web.{get_max_results}
use source_rudder.Connectors.OfficialDocs.{
  OfficialEnvironment, official_libraries, has_alias, alias_among, matching_libraries,
  request_filter, resolve_official_library, is_approved_host, is_approved_official_url,
  official_items, filter_official_results, registry_response, use_scoped, official_search,
}
use source_rudder.Connectors.OfficialDocs.Approved.{Provenance, official_search-Provenance}

abbrev page : SearchResultItem
page = record {
  title = bytes "Effective Go";
  url = bytes "https://go.dev/doc";
  snippet = [];
  source = bytes "web";
  engine = [];
  type = bytes "web";
  score = pos 1;
  published_at = none;
  author = [];
  tags = [];
  citation_id = [];
  canonical_url = [];
}

abbrev found : SearchResponse
found = record no_response { results = some (page ∷ []) }

abbrev environment : OfficialEnvironment
environment = record {
  to_lower = λ s. s;
  trim_space = λ s. s;
  fields = λ s. s ∷ [];
  quote = λ s. s;
  parse_url = λ _. some (record { scheme = bytes "https"; hostname = bytes "go.dev" });
  backend = λ _ _. ok found;
}

abbrev asked : SearchRequest
asked = record {
  query = bytes "go";
  sources = [];
  max_results = pos 0;
  language = [];
  safe_search = false;
  time_range = [];
  format = [];
  cache_policy = [];
  deep_research = false;
  filters = [];
}

abbrev answer : SearchResponse
answer = registry_response environment asked found (
    record page {
      source = bytes "official_docs";
      tags = bytes "official-documentation" ∷ bytes "library:go" ∷ [];
    }
    ∷ [])

answers : official_search environment asked ≡ ok answer
unfolding official_search resolve_official_library request_filter matching_libraries alias_among
    has_alias official_libraries use_scoped filter_official_results official_items
    is_approved_official_url is_approved_host get_max_results bytes lookup text_eq insert
answers = refl

official_example : Provenance environment asked answer
official_example = official_search-Provenance environment asked answer answers
