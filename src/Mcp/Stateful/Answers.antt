-- ===== src/Mcp/Stateful/Answers.antt =====
-- get_cached and invalidate_cache, one after the other.
use source_rudder.Prelude.{
  ◌≡◌, ◌∙◌, inl, inr, false, none, some, List, arith, Option-cases, ℤ, Text, text_eq_self, is_empty,
  lookup-delete,
}
use source_rudder.Types.{ok}
use source_rudder.Cache.{Service, get, read, delete_if_present}
use source_rudder.Search.Manager.{Connector}
use source_rudder.Mcp.State.{Shared, Server, State, Outside, cached_reply}
use source_rudder.Mcp.Stateful.{
  read_cache, drop_cached, make_get_cached_handler, make_invalidate_cache_handler,
}

missing_after_delete :
    (c : Service) (key : Text) (now later : ℤ)
    → (get (delete_if_present c key).0 key now later).1 ≡ none
unfolding get read delete_if_present
missing_after_delete c key now later =
    ground (arith, lookup-delete key key c.entries, text_eq_self key)

module _ {S : Type 0} (o : Outside S) (s : Server S) (key args : Text) (st : State S)
    (connectors : List (Text × Connector (Shared S))) (a : o.key_args args ≡ ok key)
    (e : is_empty key ≡ false) (m : s.connector_manager ≡ some connectors) where
  cache_left :
      (make_invalidate_cache_handler o s st args).0.shared.cache
      ≡ (delete_if_present st.shared.cache key).0
  unfolding make_invalidate_cache_handler drop_cached
  cache_left = ground (arith, a, e, m)

  miss :
      (next : State S)
      → next.shared.cache ≡ (delete_if_present st.shared.cache key).0
      → (make_get_cached_handler o s next args).1 ≡ ok (cached_reply none)
  unfolding make_get_cached_handler read_cache
  miss next h =
      let (now, outside) = o.tick next.shared.outside in
      ground (arith, a, e, m, h, missing_after_delete st.shared.cache key now (o.tick outside).0)

-- For arguments that decode to a key that is not empty, once invalidate_cache has answered,
-- get_cached finds nothing under the key as long as the cache is the one that was left, whatever
-- has happened to the rest of the state.
pub get_cached_after_invalidate :
    {S : Type 0} (o : Outside S) (s : Server S) (key args : Text) (st next : State S)
    → o.key_args args ≡ ok key
    → is_empty key ≡ false
    → next.shared.cache ≡ (make_invalidate_cache_handler o s st args).0.shared.cache
    → (make_get_cached_handler o s next args).1 ≡ ok (cached_reply none)
unfolding make_get_cached_handler
get_cached_after_invalidate o s key args st next a e h = elim (Option-cases (s.connector_manager)) [
  | inl m ↦ ground (arith, a, e, m)
  | inr (connectors, m) ↦
      miss o s key args st connectors a e m next (h ∙ cache_left o s key args st connectors a e m)
]
