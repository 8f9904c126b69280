-- ===== src/Connectors/Api/Again.antt =====
-- What a search of an API answers while the response of an earlier one is in the cache.
use source_rudder.Prelude.{◌≡◌, refl, true, none, some, arith, ℤ, pos, ◌+ℤ◌, ◌≤ℤ◌, ◌<ℤ◌, Text}
use source_rudder.Types.{SearchRequest, SearchResponse, CacheEntry}
use source_rudder.Cache.{
  read, Service, get, entry_view, effective_ttl, set, set_with_max_ttl, sweep,
}
use source_rudder.Cache.View.{IsValid}
use source_rudder.Cache.Contract.{fresh}
use source_rudder.Connectors.Web.Cached.{get-IsValid, get_after_set}
use source_rudder.Connectors.Api.{ApiEnvironment, cache_results, use_found, through_cache}
use source_rudder.Connectors.Api.GitHub.{
  GitHubEnvironment, pr, git_hub_afresh, git_hub_key, search_pr,
}

ttl-get : (s : Service) (key : Text) (now later : ℤ) → (get s key now later).0.ttl ≡ s.ttl
unfolding get read sweep
ttl-get s key now later = ground arith

effective_ttl-uncapped : (s : Service) → effective_ttl s (pos 0) ≡ s.ttl
unfolding effective_ttl
effective_ttl-uncapped s = ground arith

module _ (env : ApiEnvironment) (key : Text) (first : SearchResponse) where
  searched :
      (svc : Service) (now later written : ℤ) (payload : Text)
      → (get svc key now later).1 ≡ none
      → env.marshal first ≡ some payload
      → (through_cache env svc key first now later written).0
        ≡ set_with_max_ttl (get svc key now later).0 key payload first.sources_used (pos 0) written
  unfolding through_cache use_found cache_results set
  searched svc now later written payload miss m = ground (arith, miss, m)

  answered :
      (svc : Service) (other : SearchResponse) (t later written : ℤ) (e : CacheEntry)
      → (get svc key t later).1 ≡ some e
      → env.unmarshal e.payload ≡ some first
      → (through_cache env svc key other t later written).1 ≡ record first { cached = true }
  unfolding through_cache use_found
  answered svc other t later written e hit u = ground (arith, hit, u)

  through_cache_again :
      (svc : Service) (other : SearchResponse) (now later written t after next : ℤ) (payload : Text)
      → IsValid svc
      → (get svc key now later).1 ≡ none
      → env.marshal first ≡ some payload
      → env.unmarshal payload ≡ some first
      → written ≤ℤ t
      → t ≤ℤ after
      → t <ℤ written +ℤ svc.ttl
      → (through_cache env
          (through_cache env svc key first now later written).0
          key
          other
          t
          after
          next).1
        ≡ record first { cached = true }
  through_cache_again svc other now later written t after next payload v miss m u h k l =
      let s = (get svc key now later).0 in
      let lives : t <ℤ written +ℤ effective_ttl s (pos 0) =
        rw (effective_ttl-uncapped s, ttl-get svc key now later) l in
      rw (searched svc now later written payload miss m) (
        answered (set_with_max_ttl s key payload first.sources_used (pos 0) written) other t after
          next (entry_view (fresh s key payload first.sources_used (pos 0) written))
          (get_after_set s key payload first.sources_used (pos 0) written t after
            (get-IsValid svc key now later v) h k lives)
          u)

-- On a valid cache that has nothing for the query, and with an encoding of the response that is
-- decoded back to it, a second search for pull requests with the same query is answered by the
-- response of the first until the full lifetime of the cache is over: also if it filters by
-- another state or asks for more results, and also if that response is a partial one.
pub search_pr_again :
    (env : GitHubEnvironment) (p q : SearchRequest) (svc : Service)
    (now later written t after next : ℤ) (payload : Text)
    → q.query ≡ p.query
    → IsValid svc
    → (get svc (git_hub_key env pr p) now later).1 ≡ none
    → env.api.marshal (git_hub_afresh env pr p) ≡ some payload
    → env.api.unmarshal payload ≡ some (git_hub_afresh env pr p)
    → written ≤ℤ t
    → t ≤ℤ after
    → t <ℤ written +ℤ svc.ttl
    → (search_pr env (search_pr env svc p now later written).0 q t after next).1
      ≡ record (git_hub_afresh env pr p) { cached = true }
unfolding search_pr git_hub_key
search_pr_again env p q svc now later written t after next payload same v miss m u h k l =
    let key : git_hub_key env pr q ≡ git_hub_key env pr p = rw same refl in
    rw key (
      through_cache_again env.api (git_hub_key env pr p) (git_hub_afresh env pr p) svc
        (git_hub_afresh env pr q) now later written t after next payload v miss m u h k l)
