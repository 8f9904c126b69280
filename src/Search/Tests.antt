-- ===== src/Search/Tests.antt =====
-- The theorems on the planner and on SearchAll at concrete inputs.
use source_rudder.Prelude.{
  count_at, ℕ, suc, ◌≤◌, ◌≡◌, refl, false, none, some, List, [], ◌∷◌, map, elems, pos, Text, bytes,
  text_eq, has_prefix, contains, lookup, insert,
}
use source_rudder.Types.{
  SearchRequest, SearchResultItem, SearchResponse, Result, ok, err, plain_error, no_response,
}
use source_rudder.Normalization.{UrlLibrary, seen_before}
use source_rudder.Search.Planner.{count_into, Runtime, classify_intent, intent_scores}
use source_rudder.Search.Planner.Intent.{intent_score, IsOrder, classify_intent_lem}
use source_rudder.Search.Manager.{Connector, search_all}
use source_rudder.Search.Manager.Dedupe.{canonical_of, Distinct}
use source_rudder.Search.Manager.All.{replies, all_found, search_all_lem}

-- A text that is lowered already, and a map in the order in which it was filled.
abbrev runtime : Runtime
runtime = record { to_lower = λ s. s; arrange = λ m. m }

abbrev query : Text
query = bytes "github api"

scores-IsOrder : IsOrder (intent_scores query) (intent_scores query)
unfolding intent_scores count_into count_at insert contains has_prefix bytes text_eq lookup
scores-IsOrder = record { distinct = (refl, (refl, (refl, (refl, tt)))); same = λ k. refl }

intent_example :
    ((j : Text) → intent_score query j ≤ intent_score query (classify_intent runtime query))
    × (((j : Text) → intent_score query j ≡ 0) → classify_intent runtime query ≡ bytes "general")
intent_example = classify_intent_lem runtime query scores-IsOrder

abbrev library : UrlLibrary
library = record {
  parse_parts = λ raw. ok (record { scheme = bytes "https"; host = []; path = raw });
  print_parts = λ parts. parts.path;
}

abbrev item : Text → SearchResultItem
item url = record {
  title = [];
  url = url;
  snippet = [];
  source = bytes "web";
  engine = [];
  type = [];
  score = pos 0;
  published_at = none;
  author = [];
  tags = [];
  citation_id = [];
  canonical_url = [];
}

abbrev found : List SearchResultItem
found = item (bytes "a/") ∷ item (bytes "b") ∷ item (bytes "a") ∷ []

abbrev answering : Text → Result SearchResponse → Connector ℕ
answering name reply = record {
  name = name;
  search = λ n _. (suc n, reply);
  search_pr = none;
  search_issue = none;
}

-- One connector fails, and one answers.
abbrev two_connectors : List (Text × Connector ℕ)
two_connectors =
    (bytes "npm", answering (bytes "npm") (err (plain_error (bytes "refused"))))
    ∷ (bytes "web", answering (bytes "web") (ok (record no_response { results = some found })))
    ∷ []

abbrev request : SearchRequest
request = record {
  query = query;
  sources = [];
  max_results = pos 0;
  language = [];
  safe_search = false;
  time_range = [];
  format = [];
  cache_policy = [];
  deep_research = false;
  filters = [];
}

search_all_example :
    Distinct library (elems (search_all library two_connectors request 0).1.results)
    × ((k : Text)
        → seen_before k (
            map
              (canonical_of library)
              (elems (search_all library two_connectors request 0).1.results))
          ≡ seen_before k
              (map (canonical_of library) (all_found (replies two_connectors request 0))))
    × (elems (search_all library two_connectors request 0).1.errors ≡ (bytes "npm: refused") ∷ [])
unfolding bytes
search_all_example = search_all_lem library two_connectors request 0
