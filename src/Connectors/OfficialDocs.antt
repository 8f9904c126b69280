-- ===== src/Connectors/OfficialDocs.antt =====
-- internal/connectors/official_docs.go. The backend connector, url.Parse, %q and the functions on
-- runes are parameters; a call of the backend is numbered, since a second call may find other
-- results.
pub mod Approved
mod Tests
use source_rudder.Prelude.{
  ℕ, suc, Bool, false, ◌&&◌, ◌||◌, not, Option, none, some, List, [], ◌∷◌, ◌++◌, map, ◌==◌,
  if◌then◌else◌, length, elems, append_one, ℤ, pos, ltb_ℤ, eqb_ℤ, Text, bytes, text_eq, is_empty,
  has_suffix, join, lookup, insert,
}
use source_rudder.Types.{SearchRequest, SearchResultItem, SearchResponse, Failure, Result, ok, err}
use source_rudder.Connectors.Web.{get_max_results}

abbrev pub official_docs_strategy : Text
official_docs_strategy = bytes "official_doc_registry_search"

abbrev pub official_docs_fallback_strategy : Text
official_docs_fallback_strategy = bytes "official_doc_web_fallback"

abbrev pub official_docs_fetch_limit : ℤ
official_docs_fetch_limit = pos 50

pub record OfficialLibrary : Type 0 where
  pub id : Text
  pub aliases : List Text
  pub hosts : List Text

unfoldable pub official_libraries : List OfficialLibrary
official_libraries =
    record {
      id = bytes "go";
      aliases = bytes "go" ∷ bytes "golang" ∷ [];
      hosts = bytes "go.dev" ∷ [];
    }
    ∷ record {
      id = bytes "searxng";
      aliases = bytes "searxng" ∷ bytes "searx" ∷ [];
      hosts = bytes "docs.searxng.org" ∷ [];
    }
    ∷ []

-- The scheme of a URL, and Hostname().
pub record UrlHost : Type 0 where
  pub scheme : Text
  pub hostname : Text

pub record OfficialEnvironment : Type 0 where
  pub to_lower : Text → Text
  pub trim_space : Text → Text
  -- strings.FieldsFunc at what is neither a letter nor a number.
  pub fields : Text → List Text
  pub quote : Text → Text
  pub parse_url : Text → Option UrlHost
  pub backend : ℕ → SearchRequest → Result SearchResponse

unfoldable pub has_alias : Text → List Text → Bool
has_alias alias [] = false
has_alias alias (candidate ∷ rest) = text_eq alias candidate || has_alias alias rest

-- The loop of resolveOfficialAlias.
unfoldable pub alias_among : Text → List OfficialLibrary → Option OfficialLibrary
alias_among alias [] = none
alias_among alias (library ∷ rest) =
    if has_alias alias library.aliases then some library else alias_among alias rest

abbrev pub resolve_official_alias : Text → Option OfficialLibrary
resolve_official_alias alias = alias_among alias official_libraries

-- The loop over the tokens, which fills the map `matches`.
unfoldable pub matching_libraries :
    List Text → List (Text × OfficialLibrary) → List (Text × OfficialLibrary)
matching_libraries [] matches = matches
matching_libraries (token ∷ tokens) matches = elim (resolve_official_alias token) [
  | none ↦ matching_libraries tokens matches
  | some library ↦ matching_libraries tokens (insert library.id library matches)
]

-- The library of a map with one entry.
abbrev pub only_match : List (Text × OfficialLibrary) → Option OfficialLibrary
only_match [] = none
only_match ((id, library) ∷ []) = some library
only_match (first ∷ second ∷ rest) = none

unfoldable pub scoped_clauses : List Text → List Text
scoped_clauses [] = []
scoped_clauses (host ∷ hosts) = (bytes "site:" ++ host) ∷ scoped_clauses hosts

unfoldable pub scoped_official_query : Text → List Text → Text
scoped_official_query query hosts =
    join (scoped_clauses hosts) (bytes " OR ") ++ (bytes " " ++ query)

module _ (env : OfficialEnvironment) where
  unfoldable pub request_filter : SearchRequest → Text → Text
  request_filter req key = elim (lookup key req.filters) [
    | none ↦ []
    | some value ↦ env.trim_space value
  ]

  unfoldable pub resolve_official_library : SearchRequest → Option OfficialLibrary
  resolve_official_library req =
      let requested = request_filter req (bytes "library") in
      if is_empty requested
      then only_match (matching_libraries (env.fields (env.to_lower req.query)) [])
      else resolve_official_alias (env.to_lower (env.trim_space requested))

  -- The loop over the approved hosts.
  unfoldable pub is_approved_host : Text → List Text → Bool
  is_approved_host host [] = false
  is_approved_host host (approved ∷ rest) =
      (text_eq host (env.to_lower approved) || has_suffix host (bytes "." ++ env.to_lower approved))
      || is_approved_host host rest

  unfoldable pub is_approved_official_url : Text → List Text → Bool
  is_approved_official_url raw hosts = elim (env.parse_url raw) [
    | none ↦ false
    | some u ↦
        if (not (text_eq u.scheme (bytes "http")) && not (text_eq u.scheme (bytes "https")))
          || is_empty u.hostname
        then false
        else is_approved_host (env.to_lower u.hostname) hosts
  ]

  -- The loop over the results, when `kept` are there.
  unfoldable pub official_items :
      List Text → ℤ → Text → ℕ → List SearchResultItem → List SearchResultItem
  official_items hosts limit library kept [] = []
  official_items hosts limit library kept (r ∷ rs) =
      if eqb_ℤ (pos kept) limit || not (is_approved_official_url r.url hosts)
      then official_items hosts limit library kept rs
      else record r {
        source = bytes "official_docs";
        tags = r.tags ++ (bytes "official-documentation" ∷ (bytes "library:" ++ library) ∷ []);
      }
        ∷ official_items hosts limit library (suc kept) rs

  unfoldable pub filter_official_results :
      List SearchResultItem → List Text → ℤ → Text → List SearchResultItem
  filter_official_results results hosts max_results library =
      official_items hosts (get_max_results max_results (pos 10)) library 0 results

  -- `call` is the number of the call of the backend.
  unfoldable pub fallback : ℕ → SearchRequest → Text → Result SearchResponse
  fallback call req reason = elim (env.backend call req) [
    | err e ↦ err e
    | ok resp ↦ ok (record resp {
      strategy = official_docs_fallback_strategy;
      warnings =
          append_one resp.warnings (bytes "strategy: official_doc_web_fallback — " ++ reason);
    })
  ]

  unfoldable pub scoped_request : SearchRequest → OfficialLibrary → SearchRequest
  scoped_request req library = record req {
    query = scoped_official_query req.query library.hosts;
    max_results =
        if ltb_ℤ req.max_results official_docs_fetch_limit
        then official_docs_fetch_limit
        else req.max_results;
  }

  -- The response of the backend, as it is passed on.
  unfoldable pub registry_response :
      SearchRequest → SearchResponse → List SearchResultItem → SearchResponse
  registry_response req resp results =
      let version = request_filter req (bytes "version") in
      record resp {
        query = req.query;
        results = some results;
        strategy = official_docs_strategy;
        sources_used = some (bytes "official_docs" ∷ []);
        warnings =
            if is_empty version
            then resp.warnings
            else append_one resp.warnings (
                bytes "version filter "
                ++ (env.quote version ++ bytes " is not verified by the authoritative registry"));
      }

  -- What Search does with the answer of the backend to the scoped request.
  unfoldable pub use_scoped :
      SearchRequest → OfficialLibrary → Result SearchResponse → Result SearchResponse
  use_scoped req library (err e) =
      fallback 1 req (bytes "official registry search failed: " ++ e.message)
  use_scoped req library (ok resp) =
      let results =
        filter_official_results (elems resp.results) library.hosts req.max_results library.id in
      if length results == 0
      then fallback 1 req
          (bytes "no validated authoritative results survived registry provenance checks")
      else ok (registry_response req resp results)

  unfoldable pub official_search : SearchRequest → Result SearchResponse
  official_search req = elim (resolve_official_library req) [
    | none ↦
        fallback 0 req (bytes "no unambiguous library in the authoritative documentation registry")
    | some library ↦ use_scoped req library (env.backend 0 (scoped_request req library))
  ]
