-- ===== src/Mcp/Rpc/Batch.antt =====
-- Which requests of a batch are answered.
use source_rudder.Prelude.{
  ◌≡◌, refl, inl, inr, Option, none, some, List, [], ◌∷◌, map, arith, Option-cases, Text,
}
use source_rudder.Mcp.State.{Server, State, Outside}
use source_rudder.Mcp.Rpc.{
  RpcRequest, RpcResponse, Params, handle_rpc_request, handle_batch, dispatch,
}

-- The ids of the requests that are no notifications, in order.
abbrev pub awaited : List RpcRequest → List (Option Text)
awaited [] = []
awaited (req ∷ reqs) = elim (req.id) [ none ↦ awaited reqs | some i ↦ some i ∷ awaited reqs ]

abbrev pub ids : List RpcResponse → List (Option Text)
ids = map λ r. r.id

module _ {S : Type 0} (o : Outside S) (p : Params) (s : Server S) where
  answers_one :
      (st : State S) (req : RpcRequest) (reqs : List RpcRequest) (rest : List RpcResponse)
      → ids rest ≡ awaited reqs
      → ids (elim ((handle_rpc_request o p s st req).1) [ none ↦ rest | some r ↦ r ∷ rest ])
        ≡ awaited (req ∷ reqs)
  unfolding handle_rpc_request
  answers_one st req reqs rest h = elim (Option-cases (req.id)) [
    | inl e ↦ ground (arith, e, h)
    | inr (i, e) ↦ elim (Option-cases ((dispatch o p s st req).1)) [
      | inl d ↦ ground (arith, e, d, h)
      | inr (c, d) ↦ ground (arith, e, d, h)
    ]
  ]

  -- A batch is answered by one response for every request that is no notification, with its id, in
  -- the order of the requests.
  pub handle_batch-ids :
      (st : State S) (reqs : List RpcRequest) → ids (handle_batch o p s st reqs).1 ≡ awaited reqs
  unfolding handle_batch
  handle_batch-ids st [] = refl
  handle_batch-ids st (req ∷ reqs) =
      let t = (handle_rpc_request o p s st req).0 in
      answers_one st req reqs (handle_batch o p s t reqs).1 (handle_batch-ids t reqs)
