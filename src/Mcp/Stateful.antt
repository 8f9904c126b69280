-- ===== src/Mcp/Stateful.antt =====
-- The handlers of get_cached, invalidate_cache, get_search_history and get_current_date in
-- internal/mcp/tools.go.
pub mod Answers
use source_rudder.Prelude.{false, none, some, [], if◌then◌else◌, pos, leb_ℤ, Text, bytes, is_empty}
use source_rudder.Types.{Result, ok, err, plain_error}
use source_rudder.Cache
use source_rudder.History
use source_rudder.Mcp.State.{
  Shared, Server, State, Reply, Outside, Handler, cached_reply, invalidated_reply, history_reply,
  date_reply,
}
use source_rudder.Mcp.Search.{invalid_args}

module _ {S : Type 0} (o : Outside S) where
  -- get_cached on the cache; the two moments are those of Get.
  unfoldable pub read_cache : State S → Text → State S × Result Reply
  read_cache st key =
      let (now, outside1) = o.tick st.shared.outside in
      let (later, outside2) = o.tick outside1 in
      let (cache, found) = Cache.get st.shared.cache key now later in
      (record st { shared = record { outside = outside2; cache = cache } }, ok (cached_reply found))

  unfoldable pub make_get_cached_handler : Server S → Handler S
  make_get_cached_handler s st args = invalid_args o st (o.key_args args) λ key.
      if is_empty key
      then (st, err (plain_error (bytes "key is required")))
      else elim (s.connector_manager) [
        | none ↦ (st, ok (cached_reply none))
        | some connectors ↦ read_cache st key
      ]

  unfoldable pub drop_cached : State S → Text → State S × Result Reply
  drop_cached st key =
      let (cache, invalidated) = Cache.delete_if_present st.shared.cache key in
      (
        record st { shared = record (st.shared) { cache = cache } },
        ok (invalidated_reply key invalidated),
      )

  unfoldable pub make_invalidate_cache_handler : Server S → Handler S
  make_invalidate_cache_handler s st args = invalid_args o st (o.key_args args) λ key.
      if is_empty key
      then (st, err (plain_error (bytes "key is required")))
      else elim (s.connector_manager) [
        | none ↦ (st, ok (invalidated_reply key false))
        | some connectors ↦ drop_cached st key
      ]

  unfoldable pub make_get_search_history_handler : Handler S
  make_get_search_history_handler st args =
      invalid_args o st (o.history_args args) λ (limit, query).
        if leb_ℤ limit (pos 0)
        then (st, err (plain_error (bytes "limit is required and must be positive")))
        else elim (st.history) [
          | none ↦ (st, ok (history_reply [] limit query))
          | some h ↦ (st, ok (history_reply (History.list h limit query) limit query))
        ]

  unfoldable pub get_current_date_handler : Handler S
  get_current_date_handler st args =
      let (now, outside) = o.tick st.shared.outside in
      (record st { shared = record (st.shared) { outside = outside } }, ok (date_reply now))
