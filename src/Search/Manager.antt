-- ===== src/Search/Manager.antt =====
-- internal/search/connector_manager.go. A connector acts on a state of type `S`, which stands for
-- what lies behind it: its cache, and the services it asks.
pub mod Dedupe
pub mod All
use source_rudder.Prelude.{
  Bool, true, Option, none, some, List, [], ◌∷◌, ◌++◌, map, if◌then◌else◌, Slice, elems, append_one,
  Text, bytes, lookup, insert,
}
use source_rudder.Types.{
  SearchRequest, SearchResultItem, SearchResponse, Result, ok, err, no_response,
}
use source_rudder.Normalization.{UrlLibrary, seen_before, extract_canonical_url}

-- A types.SearchConnector; of the connector of GitHub, also SearchPR and SearchIssue.
pub record Connector (S : Type 0) : Type 0 where
  pub name : Text
  pub search : S → SearchRequest → S × Result SearchResponse
  pub search_pr : Option (S → SearchRequest → S × Result SearchResponse)
  pub search_issue : Option (S → SearchRequest → S × Result SearchResponse)

-- What the loop of SearchAll has gathered.
pub record Gathered : Type 0 where
  pub all_results : Slice SearchResultItem
  pub sources_used : List (Text × Bool)
  pub errors : Slice Text

-- sourcesUsed[s] = true, for every s.
unfoldable pub mark_sources : List Text → List (Text × Bool) → List (Text × Bool)
mark_sources [] m = m
mark_sources (s ∷ ss) m = mark_sources ss (insert s true m)

-- append(xs, ys...): a nil slice stays nil when nothing is appended.
abbrev pub append_all {ℓ} : {A : Type ℓ} → Slice A → List A → Slice A
append_all s [] = s
append_all s (y ∷ ys) = some (elems s ++ y ∷ ys)

abbrev pub source_names : List (Text × Bool) → List Text
source_names = map λ e. e.0

module _ (u : UrlLibrary) where
  -- The loop of deduplicateResults.
  unfoldable pub deduplicate_from : List Text → List SearchResultItem → List SearchResultItem
  deduplicate_from seen [] = []
  deduplicate_from seen (r ∷ rs) =
      let canonical = extract_canonical_url u r.url in
      if seen_before canonical seen
      then deduplicate_from seen rs
      else record r { canonical_url = canonical } ∷ deduplicate_from (canonical ∷ seen) rs

  unfoldable pub deduplicate_results : List SearchResultItem → List SearchResultItem
  deduplicate_results results = deduplicate_from [] results

-- What one turn of the loop of SearchAll gathers.
unfoldable pub gather : Text → Result SearchResponse → Gathered → Gathered
gather name (err e) g = record g {
  errors = append_one g.errors (name ++ (bytes ": " ++ e.message));
}
gather name (ok result) g = record {
  all_results = append_all g.all_results (elems result.results);
  sources_used = mark_sources (elems result.sources_used) g.sources_used;
  errors = append_all g.errors (elems result.errors);
}

module _ {S : Type 0} where
  unfoldable pub gather_all :
      List (Text × Connector S) → SearchRequest → S → Gathered → S × Gathered
  gather_all [] req s g = (s, g)
  gather_all ((name, conn) ∷ m) req s g =
      let (t, result) = conn.search s req in gather_all m req t (gather name result g)

  unfoldable pub register : List (Text × Connector S) → Connector S → List (Text × Connector S)
  register connectors connector = insert (connector.name) connector connectors

  unfoldable pub get_connector : List (Text × Connector S) → Text → Option (Connector S)
  get_connector connectors name = lookup name connectors

  unfoldable pub search :
      List (Text × Connector S) → Text → SearchRequest → S → S × Result SearchResponse
  search connectors source req s = elim (lookup source connectors) [
    | none ↦ (
      s,
      ok record no_response {
        query = req.query;
        results = some [];
        errors = some ((bytes "unknown source: " ++ source) ∷ []);
        sources_used = some (source ∷ []);
      },
    )
    | some conn ↦ conn.search s req
  ]

  -- SearchAll; the connectors stand in the order in which the loop visits them, and the sources in
  -- the order in which the second loop does.
  unfoldable pub search_all :
      UrlLibrary → List (Text × Connector S) → SearchRequest → S → S × SearchResponse
  search_all u connectors req s =
      let (t, g) =
        gather_all connectors req s
          (record { all_results = none; sources_used = []; errors = none }) in
      (
        t,
        record no_response {
          query = req.query;
          results = some (deduplicate_results u (elems g.all_results));
          sources_used = some (source_names g.sources_used);
          errors = g.errors;
        },
      )
