-- ===== src/Search/Registry.antt =====
-- internal/search/registry.go: the other map of connectors, which answers an unknown name by an
-- error.
use source_rudder.Prelude.{none, some, List, ◌++◌, map, Text, bytes, lookup, insert}
use source_rudder.Types.{SearchRequest, SearchResponse, Result, ok, err, plain_error}
use source_rudder.Search.Manager.{Connector}

module _ {S : Type 0} where
  unfoldable pub register_conn : List (Text × Connector S) → Connector S → List (Text × Connector S)
  register_conn connectors conn = insert (conn.name) conn connectors

  unfoldable pub get_conn : List (Text × Connector S) → Text → Result (Connector S)
  get_conn connectors name = elim (lookup name connectors) [
    | none ↦ err (plain_error (bytes "connector not found: " ++ name))
    | some conn ↦ ok conn
  ]

  unfoldable pub list_names : List (Text × Connector S) → List Text
  list_names connectors = map (λ e. e.0) connectors

  unfoldable pub search_conn :
      List (Text × Connector S) → Text → SearchRequest → S → S × Result SearchResponse
  search_conn connectors name req s = elim (get_conn connectors name) [
    | err e ↦ (s, err e)
    | ok conn ↦ conn.search s req
  ]
