-- ===== src/Connectors/Web/Cached.antt =====
-- What the web connector answers the second time.
use source_rudder.Prelude.{
  ◌≡◌, ap, ◌∙◌, inl, inr, true, none, some, arith, if◌then◌else◌, Bool-cases, Option-cases, Slice,
  ℤ, pos, ◌+ℤ◌, ◌≤ℤ◌, ◌<ℤ◌, Text, text_eq_self, lookup,
}
use source_rudder.Types.{CacheEntry, SearchRequest, SearchResponse}
use source_rudder.Cache.{read, Service, get, is_live, entry_view, effective_ttl, set_with_max_ttl}
use source_rudder.Cache.View.{IsValid, live_only, sweep-IsValid, set_with_max_ttl-IsValid}
use source_rudder.Cache.Contract.{fresh, get-view, view-set_with_max_ttl}
use source_rudder.Connectors.Degradation.{degraded_search_cache_ttl, cache_searxng_response}
use source_rudder.Connectors.Web.{
  WebEnvironment, get_max_results, search_afresh, use_cached, web_search,
}
use mathlib.Core.Option

pub get-IsValid :
    (s : Service) (key : Text) (now later : ℤ) → IsValid s → IsValid (get s key now later).0
unfolding get read
get-IsValid s key now later v = elim (Option-cases (lookup key s.entries)) [
  | inl none_there ↦ rw (none_there, get) v
  | inr (e, there) ↦ elim (Bool-cases (is_live now e)) [
    | inl live ↦ rw (there, get) (rw live v)
    | inr dead ↦ rw (there, get) (rw dead (sweep-IsValid s later v))
  ]
]

-- The cap on the lifetime of a cached response.
abbrev pub cap_of : SearchResponse → ℤ
cap_of resp = if resp.partial then degraded_search_cache_ttl else pos 0

pub get_after_set :
    (s : Service) (key payload : Text) (sources : Slice Text) (limit written t later : ℤ)
    → IsValid s
    → written ≤ℤ t
    → t ≤ℤ later
    → t <ℤ written +ℤ effective_ttl s limit
    → (get (set_with_max_ttl s key payload sources limit written) key t later).1
      ≡ some (entry_view (fresh s key payload sources limit written))
get_after_set s key payload sources limit written t later v h k l =
    let alive : live_only t (some (fresh s key payload sources limit written))
        ≡ some (fresh s key payload sources limit written) =
      ground (arith, l) in
    let shown = view-set_with_max_ttl s key payload sources limit written t key v h in
    let got =
      get-view (set_with_max_ttl s key payload sources limit written) key t later
        (set_with_max_ttl-IsValid s key payload sources limit written v) k in
    got.0
    ∙ ap (Option.map entry_view) {y = some (fresh s key payload sources limit written)}
        (shown ∙ ground (arith, text_eq_self key, alive))

module _ (env : WebEnvironment) (req : SearchRequest) where
  unfoldable pub key_of : Text
  key_of = env.cache_key (env.trim_space req.query) req (get_max_results req.max_results (pos 10))

  searched :
      (svc : Service) (now later written : ℤ) (payload : Text)
      → (get svc key_of now later).1 ≡ none
      → env.marshal (search_afresh env req).1 ≡ some payload
      → web_search env svc req now later written ≡ (
        set_with_max_ttl
            (get svc key_of now later).0
            key_of
            payload
            ((search_afresh env req).1.sources_used)
            (cap_of (search_afresh env req).1)
            written,
        (search_afresh env req).1,
      )
  unfolding web_search use_cached cache_searxng_response key_of
  searched svc now later written payload miss m = ground (arith, miss, m)

  answered :
      (svc : Service) (t later written : ℤ) (payload : Text) (resp : SearchResponse)
      (e : CacheEntry)
      → (get svc key_of t later).1 ≡ some e
      → env.unmarshal e.payload ≡ some resp
      → (web_search env svc req t later written).1 ≡ record resp { cached = true }
  unfolding web_search use_cached key_of
  answered svc t later written payload resp e hit u = ground (arith, hit, u)

  -- On a valid cache that has nothing for the request, and with an encoding of the response that
  -- is decoded back to it, the web connector answers the same request again with the same
  -- response, marked as cached, at every moment before the lifetime of the entry is over: the
  -- lifetime is cut down to 30 seconds for a partial response.
  pub web_search_again :
      (svc : Service) (now later written t after next : ℤ) (payload : Text)
      → IsValid svc
      → (get svc key_of now later).1 ≡ none
      → env.marshal (search_afresh env req).1 ≡ some payload
      → env.unmarshal payload ≡ some (search_afresh env req).1
      → written ≤ℤ t
      → t ≤ℤ after
      → t
        <ℤ written +ℤ effective_ttl (get svc key_of now later).0 (cap_of (search_afresh env req).1)
      → (web_search env (web_search env svc req now later written).0 req t after next).1
        ≡ record ((search_afresh env req).1) { cached = true }
  web_search_again svc now later written t after next payload v miss m u h k l =
      let resp = (search_afresh env req).1 in
      let s = (get svc key_of now later).0 in
      rw (searched svc now later written payload miss m) (
        answered (set_with_max_ttl s key_of payload resp.sources_used (cap_of resp) written) t after
          next payload resp
          (entry_view (fresh s key_of payload resp.sources_used (cap_of resp) written))
          (get_after_set s key_of payload resp.sources_used (cap_of resp) written t after
            (get-IsValid svc key_of now later v) h k l)
          u)
