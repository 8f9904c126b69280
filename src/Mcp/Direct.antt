-- ===== src/Mcp/Direct.antt =====
-- HandleToolsCall of internal/mcp/server.go, the call of a tool without JSON-RPC around it.
use source_rudder.Prelude.{
  ℕ, ◌≡◌, refl, inl, inr, true, none, some, [], ◌∷◌, ◌++◌, Bool-cases, Option-cases, Text, bytes,
  text_eq, is_empty, lookup,
}
use source_rudder.Types.{Result, Result-cases, ok, err, plain_error, wrap_error}
use source_rudder.Mcp.State.{Server, State, Reply, Outside}
use source_rudder.Mcp.Tools.{registry, invoke_tool}
use source_rudder.Mcp.Rpc.{Params, Content, called, rpc_error, call_tool, handle_tools_call}

-- No tool has the empty name.
nameless : (name : Text) → is_empty name ≡ true → lookup name registry ≡ none
unfolding lookup bytes text_eq
nameless [] h = refl
nameless (c ∷ name) h = cc

module _ {S : Type 0} (o : Outside S) (p : Params) (s : Server S) where
  -- What is made of a tool's result.
  unfoldable pub direct_text : Result Reply → Result Text
  direct_text (err e) = err e
  direct_text (ok reply) = ok (o.format_result reply)

  unfoldable pub call_direct : State S → Text × Text → State S × Result Text
  call_direct st (name, arguments) = elim (lookup name registry) [
    | none ↦ (st, err (plain_error (bytes "tool not found: " ++ name)))
    | some kind ↦
        let (t, result) = invoke_tool o s name kind st arguments in (t, direct_text result)
  ]

  unfoldable pub handle_tools_call_direct : State S → Text → State S × Result Text
  handle_tools_call_direct st params = elim (p.call params) [
    | err e ↦ (st, err (wrap_error (bytes "invalid params: ") e))
    | ok call ↦ call_direct st call
  ]

  -- The answer of JSON-RPC carries the text, or an error.
  abbrev pub SameAnswer : Content → Result Text → Type 0
  SameAnswer c (ok text) = c ≡ called text
  SameAnswer c (err e) = (code : ℕ) × (message : Text) × (c ≡ rpc_error code message)

  abbrev pub SameCall : State S × Content → State S × Result Text → Type 0
  SameCall a b = (a.0 ≡ b.0) × SameAnswer a.1 b.1

  call_tool-SameCall :
      (st : State S) (call : Text × Text) → SameCall (call_tool o p s st call) (call_direct st call)
  unfolding call_tool call_direct direct_text lookup text_eq bytes
  call_tool-SameCall st (name, arguments) = elim (Bool-cases (is_empty name)) [
    | inl b ↦ rw (b, nameless name b) (refl, (32602, _, refl))
    | inr b ↦ elim (Option-cases (lookup name registry)) [
      | inl q ↦ rw (b, q) (refl, (32602, _, refl))
      | inr (kind, q) ↦ elim (Result-cases (invoke_tool o s name kind st arguments).1) [
        | inl (e, r) ↦ rw (b, q, r) (refl, (32603, _, refl))
        | inr (reply, r) ↦ rw (b, q, r) (refl, refl)
      ]
    ]
  ]

  -- HandleToolsCall leaves the state that tools/call leaves, and answers with the same text, or
  -- with an error exactly where tools/call does.
  pub handle_tools_call-SameCall :
      (st : State S) (params : Text)
      → SameCall (handle_tools_call o p s st params) (handle_tools_call_direct st params)
  unfolding handle_tools_call handle_tools_call_direct
  handle_tools_call-SameCall st params = elim (Result-cases (p.call params)) [
    | inl (e, q) ↦ rw (q, handle_tools_call, handle_tools_call_direct) (refl, (32602, _, refl))
    | inr (call, q) ↦
        rw (q, handle_tools_call, handle_tools_call_direct) (call_tool-SameCall st call)
  ]
