-- ===== src/Mcp/Search/Recorded.antt =====
-- What the handlers of the search tools answer, and what they record.
use source_rudder.Prelude.{
  ◌≡◌, refl, ◌⊎◌, inl, inr, false, ◌&&◌, Option, some, arith, ◌==◌, Bool-cases, Option-cases,
  length, elems, ℤ, pos, Text, is_empty,
}
use source_rudder.Types.{SearchResponse, Result, Result-cases, ok, err}
use source_rudder.History.{append, HistoryService}
use source_rudder.Search.Manager.{Connector}
use source_rudder.Search.Manager
use source_rudder.Mcp.State.{Shared, Server, State, Reply, Outside, search_reply}
use source_rudder.Mcp.Wire.Stable.{IsStable, normalize-IsStable}
use source_rudder.Mcp.Search.{
  plan_of, planned, record_search, finish, conclude, make_search_handler,
}

-- What a search under a source does to the history: nothing, or one entry with a query that is not
-- empty.
abbrev pub Recorded : Text → Option HistoryService → Option HistoryService → Type 0
Recorded source before after =
    (after ≡ before)
    ⊎ ((h : HistoryService) × (query : Text) × (now : ℤ) × (before ≡ some h)
        × (is_empty query ≡ false)
        × (after
            ≡ some (append h (record { query = query; source = source; timestamp = pos 0 }) now)))

-- A failure leaves the history as it was.
abbrev pub Logged : Text → Option HistoryService → Option HistoryService → Result Reply → Type 0
Logged source before after (err e) = after ≡ before
Logged source before after (ok r) = Recorded source before after

-- The answer is an error, or a search response that keeps the wire contract.
abbrev pub Kept : Result Reply → Type 0
Kept (err e) = Unit
Kept (ok (search_reply r)) = IsStable r
Kept (ok _) = ⊥

module _ {S : Type 0} (o : Outside S) where
  conclude-Kept :
      (f : SearchResponse → Text × SearchResponse) (st : State S)
      (r : Shared S × Result SearchResponse)
      → Kept (conclude o f st r).1
  unfolding conclude finish
  conclude-Kept f st (shared, err e) = tt
  conclude-Kept f st (shared, ok resp) = normalize-IsStable (f resp).1

  -- A general search tool answers by an error, or by a response in which results, sourcesUsed,
  -- warnings, errors and keyFindings are arrays and not null.
  pub make_search_handler-Kept :
      (s : Server S) (source args : Text) (st : State S)
      → Kept (make_search_handler o s source st args).1
  unfolding make_search_handler
  make_search_handler-Kept s source args st = elim (Result-cases (o.search_args args)) [
    | inl (e, a) ↦ rw a tt
    | inr (req, a) ↦ elim (Option-cases (s.connector_manager)) [
      | inl m ↦ rw (a, m) (normalize-IsStable _)
      | inr (connectors, m) ↦
          rw (a, m)
            (conclude-Kept (λ resp. (source, planned o (plan_of o s req) source resp)) st
              (Manager.search connectors source req st.shared))
    ]
  ]

  record_search-Recorded :
      (st : State S) (source : Text) (resp : SearchResponse)
      → Recorded source st.history (record_search o st source resp).history
  unfolding record_search
  record_search-Recorded st source resp = elim (Option-cases (st.history)) [
    | inl e ↦ inl (ground (arith, e))
    | inr (h, e) ↦ elim (Bool-cases (is_empty resp.query)) [
      | inl q ↦ inl (ground (arith, e, q))
      | inr q ↦ elim (Bool-cases (resp.partial && length (elems resp.results) == 0)) [
        | inl d ↦ inl (ground (arith, e, q, d))
        | inr d ↦ inr (h, resp.query, (o.tick st.shared.outside).0, e, q, ground (arith, e, q, d))
      ]
    ]
  ]

  conclude-Logged :
      (source : Text) (f : SearchResponse → SearchResponse) (st : State S)
      (r : Shared S × Result SearchResponse)
      → Logged source st.history
          (conclude o (λ resp. (source, f resp)) st r).0.history
          (conclude o (λ resp. (source, f resp)) st r).1
  unfolding conclude finish
  conclude-Logged source f st (shared, err e) = refl
  conclude-Logged source f st (shared, ok resp) =
      record_search-Recorded (record st { shared = shared }) source (f resp)

  -- A call of a general search tool that fails leaves the history as it was; one that succeeds
  -- adds at most one entry, under the name of the connector and with a query that is not empty.
  pub make_search_handler-Logged :
      (s : Server S) (source args : Text) (st : State S)
      → Logged source st.history
          (make_search_handler o s source st args).0.history
          (make_search_handler o s source st args).1
  unfolding make_search_handler
  make_search_handler-Logged s source args st = elim (Result-cases (o.search_args args)) [
    | inl (e, a) ↦ rw a refl
    | inr (req, a) ↦ elim (Option-cases (s.connector_manager)) [
      | inl m ↦ rw (a, m) (inl refl)
      | inr (connectors, m) ↦
          rw (a, m)
            (conclude-Logged source (planned o (plan_of o s req) source) st
              (Manager.search connectors source req st.shared))
    ]
  ]
