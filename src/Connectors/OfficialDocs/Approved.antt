-- ===== src/Connectors/OfficialDocs/Approved.antt =====
-- Where the results that are called official come from.
use source_rudder.Prelude.{
  ℕ, suc, ◌+◌, ◌≤◌, ◌≡◌, refl, sym, ap, ◌∙◌, ◌⊎◌, inl, inr, true, false, ◌&&◌, ◌||◌, not, some,
  List, [], ◌∷◌, ◌++◌, reverse, arith, ◌==◌, ==_iff, Bool-cases, Option-cases, length, All, elems,
  ℤ, pos, pos_part, neg_part, eqb_ℤ, Text, bytes, text_eq, text_eq_iff, has_prefix, has_suffix,
}
use mathlib.Core.List.{reverse-append, reverse-reverse}
use source_rudder.Types.{
  SearchRequest, SearchResultItem, SearchResponse, Result, Result-cases, ok, err, Holds,
  Holds-value,
}
use source_rudder.Connectors.Web.{get_max_results}
use source_rudder.Connectors.Web.Limit.{get_max_results_le}
use source_rudder.Connectors.OfficialDocs.{
  OfficialEnvironment, OfficialLibrary, UrlHost, official_docs_strategy,
  official_docs_fallback_strategy, resolve_official_library, is_approved_host,
  is_approved_official_url, official_items, filter_official_results, fallback, registry_response,
  use_scoped, official_search,
}

has_prefix-split : (s p : Text) → has_prefix s p ≡ true → (r : Text) × (s ≡ p ++ r)
unfolding has_prefix
has_prefix-split s [] h = (s, refl)
has_prefix-split [] (p ∷ ps) h = cc
has_prefix-split (c ∷ s) (p ∷ ps) h =
    let (r, e) = has_prefix-split s ps (ground (arith, h)) in (r, ground (arith, h, e, ==_iff c p))

-- A text with a suffix is that suffix after something.
pub has_suffix-split : (s t : Text) → has_suffix s t ≡ true → (p : Text) × (s ≡ p ++ t)
unfolding has_suffix
has_suffix-split s t h =
    let (r, e) = has_prefix-split (reverse s) (reverse t) h in
    (
      reverse r,
      sym (reverse-reverse s)
          ∙ ap reverse e
          ∙ reverse-append (reverse t) r
          ∙ ap (λ x. reverse r ++ x) (reverse-reverse t),
    )

get_max_results_pos : (max : ℤ) → neg_part (get_max_results max (pos 10)) ≡ 0
unfolding get_max_results
get_max_results_pos max = ground arith

module _ (env : OfficialEnvironment) where
  -- A host that is one of those, or below one.
  abbrev pub OfHost : Text → List Text → Type 0
  OfHost host [] = ⊥
  OfHost host (a ∷ rest) =
      (host ≡ env.to_lower a)
      ⊎ ((p : Text) × (host ≡ p ++ (bytes "." ++ env.to_lower a)))
      ⊎ OfHost host rest

  -- A result from one of the hosts, over HTTP.
  pub record Approved (hosts : List Text) (item : SearchResultItem) : Type 0 where
    parts : UrlHost
    parsed : env.parse_url item.url ≡ some parts
    over_http : (parts.scheme ≡ bytes "http") ⊎ (parts.scheme ≡ bytes "https")
    of_host : OfHost (env.to_lower parts.hostname) hosts

  host-OfHost :
      (host : Text) (hosts : List Text) → is_approved_host env host hosts ≡ true → OfHost host hosts
  unfolding is_approved_host
  host-OfHost host [] h = cc
  host-OfHost host (a ∷ rest) h = elim (Bool-cases (text_eq host (env.to_lower a))) [
    | inl e ↦ inl ((text_eq_iff host (env.to_lower a)).0 e)
    | inr e ↦ elim (Bool-cases (has_suffix host (bytes "." ++ env.to_lower a))) [
      | inl f ↦ inr (inl (has_suffix-split host _ f))
      | inr f ↦ inr (inr (host-OfHost host rest (ground (arith, h, e, f))))
    ]
  ]

  over_http_of :
      (u : UrlHost)
      → (not (text_eq u.scheme (bytes "http")) && not (text_eq u.scheme (bytes "https"))) ≡ false
      → (u.scheme ≡ bytes "http") ⊎ (u.scheme ≡ bytes "https")
  over_http_of u h = elim (Bool-cases (text_eq u.scheme (bytes "http"))) [
    | inl e ↦ inl ((text_eq_iff u.scheme (bytes "http")).0 e)
    | inr e ↦ inr ((text_eq_iff u.scheme (bytes "https")).0 (ground (arith, h, e)))
  ]

  url-Approved :
      (item : SearchResultItem) (hosts : List Text)
      → is_approved_official_url env item.url hosts ≡ true
      → Approved hosts item
  unfolding is_approved_official_url
  url-Approved item hosts h = elim (Option-cases (env.parse_url item.url)) [
    | inl q ↦ absurd (ground (arith, h, q))
    | inr (u, q) ↦ record {
      parts = u;
      parsed = q;
      over_http = over_http_of u (ground (arith, h, q));
      of_host = host-OfHost (env.to_lower u.hostname) hosts (ground (arith, h, q));
    }
  ]

  official_items-Approved :
      (hosts : List Text) (limit : ℤ) (library : Text) (kept : ℕ) (rs : List SearchResultItem)
      → All (Approved hosts) (official_items env hosts limit library kept rs)
  unfolding official_items
  official_items-Approved hosts limit library kept [] = tt
  official_items-Approved hosts limit library kept (r ∷ rs) =
      elim (Bool-cases (eqb_ℤ (pos kept) limit || not (is_approved_official_url env r.url hosts))) [
        | inl a ↦ rw a (official_items-Approved hosts limit library kept rs)
        | inr a ↦
            let p = url-Approved r hosts (ground (arith, a)) in
            rw a (
              record {
                parts = p.parts;
                parsed = p.parsed;
                over_http = p.over_http;
                of_host = p.of_host;
              },
              official_items-Approved hosts limit library (suc kept) rs,
            )
      ]

  length-official_items :
      (hosts : List Text) (limit : ℤ) (library : Text) (kept : ℕ) (rs : List SearchResultItem)
      → neg_part limit ≡ 0
      → kept ≤ pos_part limit
      → kept + length (official_items env hosts limit library kept rs) ≤ pos_part limit
  unfolding official_items
  length-official_items hosts limit library kept [] n h = omega (arith, h)
  length-official_items hosts limit library kept (r ∷ rs) n h =
      elim (Bool-cases (eqb_ℤ (pos kept) limit || not (is_approved_official_url env r.url hosts))) [
        | inl a ↦ rw a (length-official_items hosts limit library kept rs n h)
        | inr a ↦ rw a (
            omega (
              arith,
              length-official_items hosts limit library (suc kept) rs n (ground (arith, a, n, h)),
            ))
      ]

  -- What a response that is called official holds.
  pub record Official (req : SearchRequest) (resp : SearchResponse) : Type 0 where
    library : OfficialLibrary
    resolved : resolve_official_library env req ≡ some library
    strategy : resp.strategy ≡ official_docs_strategy
    approved : All (Approved library.hosts) (elems resp.results)
    some_found : 1 ≤ length (elems resp.results)
    few : length (elems resp.results) ≤ 100
    only_source : resp.sources_used ≡ some (bytes "official_docs" ∷ [])

  abbrev pub Provenance : SearchRequest → SearchResponse → Type 0
  Provenance req resp = (resp.strategy ≡ official_docs_fallback_strategy) ⊎ Official req resp

  fallback-Provenance :
      (call : ℕ) (req : SearchRequest) (reason : Text)
      → Holds (Provenance req) (fallback env call req reason)
  unfolding fallback
  fallback-Provenance call req reason = elim (Result-cases (env.backend call req)) [
    | inl (e, q) ↦ rw (Holds, q) tt
    | inr (resp, q) ↦ rw (Holds, q) (inl refl)
  ]

  use_scoped-Provenance :
      (req : SearchRequest) (library : OfficialLibrary) (answer : Result SearchResponse)
      → resolve_official_library env req ≡ some library
      → Holds (Provenance req) (use_scoped env req library answer)
  unfolding use_scoped registry_response filter_official_results
  use_scoped-Provenance req library (err e) q = fallback-Provenance 1 req _
  use_scoped-Provenance req library (ok resp) q =
      let limit = get_max_results req.max_results (pos 10) in
      let kept = official_items env library.hosts limit library.id 0 (elems resp.results) in
      elim (Bool-cases (length kept == 0)) [
        | inl a ↦ rw a (fallback-Provenance 1 req _)
        | inr a ↦ rw a (
            inr (record {
              library = library;
              resolved = q;
              strategy = refl;
              approved =
                  official_items-Approved library.hosts limit library.id 0 (elems resp.results);
              some_found = ground (arith, a);
              few = omega (
                arith,
                length-official_items library.hosts limit library.id 0 (elems resp.results)
                    (get_max_results_pos req.max_results) (omega arith),
                (get_max_results_le req.max_results).0,
              );
              only_source = refl;
            }))
      ]

  official_search-Holds : (req : SearchRequest) → Holds (Provenance req) (official_search env req)
  unfolding official_search
  official_search-Holds req = elim (Option-cases (resolve_official_library env req)) [
    | inl q ↦ rw (Holds, q) (fallback-Provenance 0 req _)
    | inr (library, q) ↦ rw (Holds, q) (use_scoped-Provenance req library _ q)
  ]

  -- A response of the official documentation connector has the strategy of the fallback, or it is
  -- for the library that the request resolves to, lists 1 to 100 results, names only official_docs
  -- as its source, and the URL of each result is over http or https and of a host that is an
  -- approved one of the library, or below one.
  pub official_search-Provenance :
      (req : SearchRequest) (resp : SearchResponse)
      → official_search env req ≡ ok resp
      → Provenance req resp
  official_search-Provenance req resp h = Holds-value _ _ resp h (official_search-Holds req)
