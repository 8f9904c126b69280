-- ===== src/Connectors/Web/Limit.antt =====
-- How many results the web connector answers with, and when it says that they are partial.
use source_rudder.Prelude.{
  ℕ, suc, ◌-◌, ◌≤◌, ◌≡◌, refl, inl, inr, Option, none, some, List, [], ◌∷◌, arith, Bool-cases,
  length, elems, ℤ, pos, pos_part, Text, bytes, is_empty,
}
use source_rudder.Types.{SearchRequest, SearchResultItem, SearchResponse}
use source_rudder.Connectors.Degradation.{
  SearchError, unresponsive, other, record_degraded, record_searxng_error,
}
use source_rudder.Connectors.Web.{
  WebEnvironment, SearxngItem, SearxngAnswer, failed, decoded, get_max_results, web_items,
  search_searxng, search_afresh,
}

length-web_items :
    (max_results : ℤ) (i : ℕ) (items : List SearxngItem)
    → length (web_items max_results i items) ≤ pos_part max_results - i
unfolding web_items
length-web_items max_results i [] = omega arith
length-web_items max_results i (item ∷ items) =
    ground (arith, length-web_items max_results (suc i) items)

pub get_max_results_le :
    (max : ℤ)
    → (pos_part (get_max_results max (pos 10)) ≤ 100)
      × (1 ≤ pos_part (get_max_results max (pos 10)))
unfolding get_max_results
get_max_results_le max = ground arith

pub record_searxng_error-results :
    (source : Text) (results : List SearchResultItem) (e : Option SearchError)
    (resp : SearchResponse)
    → (record_searxng_error source results e resp).1.results ≡ resp.results
unfolding record_searxng_error record_degraded
record_searxng_error-results source results none resp = refl
record_searxng_error-results source results (some (unresponsive engines)) resp = refl
record_searxng_error-results source results (some (other e)) resp = ground arith

length-search_searxng :
    (max_results : ℤ) (answer : SearxngAnswer)
    → length (search_searxng max_results answer).0 ≤ pos_part max_results
unfolding search_searxng
length-search_searxng max_results (failed e) = omega arith
length-search_searxng max_results (decoded items engines) =
    omega (arith, length-web_items max_results 0 items)

-- A response of the web connector that does not come from the cache has at most 100 results,
-- however many SearXNG finds and however many are requested.
pub search_afresh_le :
    (env : WebEnvironment) (req : SearchRequest)
    → length (elems (search_afresh env req).1.results) ≤ 100
unfolding search_afresh
search_afresh_le env req = elim (Bool-cases (is_empty env.searxng_url)) [
  | inl b ↦ rw b (rw (record_searxng_error-results (bytes "web") _ _ _) (omega arith))
  | inr b ↦ rw b (
      rw (record_searxng_error-results (bytes "web") _ _ _) (
        omega (
          arith,
          (get_max_results_le req.max_results).0,
          length-search_searxng (get_max_results req.max_results (pos 10))
              (env.ask (env.trim_space req.query) req),
        )))
]
