-- ===== src/Mcp/Stdio/Served.antt =====
-- What is written for the lines of standard input.
use source_rudder.Prelude.{
  All, suc, ◌≡◌, refl, sym, ap, ◌∙◌, ◌⊎◌, inl, inr, Bool, true, false, ◌&&◌, Option, none, some,
  List, [], ◌∷◌, map, arith, ◌==◌, if◌then◌else◌, Bool-cases, Option-cases, length, Text, bytes,
  is_empty,
}
use source_rudder.Types.{Failure, Result, ok, err}
use source_rudder.Mcp.State.{Server, State, Outside}
use source_rudder.Mcp.Rpc.{handle_batch, rpc_error, RpcRequest, RpcResponse, Params, handle_message}
use source_rudder.Mcp.Rpc.Batch.{awaited, ids, handle_batch-ids}
use source_rudder.Mcp.Stdio.{Line, read_error, is_array, answer_line, serve}

module _ (p : Params) (decode : Bool → Text → Result (List RpcRequest)) where
  -- The ids that an array, or one request, is owed; `none` is the id of a parse error.
  abbrev pub owed_message : Bool → Result (List RpcRequest) → List (Option Text)
  owed_message is_batch (err e) = none ∷ []
  owed_message is_batch (ok []) = if is_batch then none ∷ [] else []
  owed_message is_batch (ok (req ∷ reqs)) = awaited (req ∷ reqs)

  abbrev pub owed_line : Text → List (Option Text)
  owed_line message =
      if is_empty message
      then []
      else owed_message (is_array message) (decode (is_array message) message)

  -- The ids of the answers that are owed to the lines; a line that is owed none is skipped.
  abbrev pub owed : List Line → List (List (Option Text))
  owed [] = []
  owed (line ∷ lines) =
      let ids_here = owed_line (p.trim_space line.text) in
      let rest = owed lines in if length ids_here == 0 then rest else ids_here ∷ rest

-- An answer is to a request, or the parse error.
abbrev pub IsAnswer : RpcResponse → Type 0
IsAnswer r =
    ((i : Text) × (r.id ≡ some i))
    ⊎ (r ≡ record { id = none; content = rpc_error 32700 (bytes "parse error") })

-- Nothing ends the loop at the line.
abbrev pub IsQuiet : Line → Type 0
IsQuiet line = (line.cancelled ≡ false) × (line.write_error ≡ none)

length-ids : (rs : List RpcResponse) → length (ids rs) ≡ length rs
length-ids [] = refl
length-ids (r ∷ rs) = ap suc (length-ids rs)

module _ {S : Type 0} (o : Outside S) (p : Params) (s : Server S)
    (decode : Bool → Text → Result (List RpcRequest)) where
  handle_message-ids :
      (st : State S) (is_batch : Bool) (reqs : Result (List RpcRequest))
      → ids (handle_message o p s st is_batch reqs).1 ≡ owed_message p decode is_batch reqs
  unfolding handle_message
  handle_message-ids st is_batch (err e) = refl
  handle_message-ids st true (ok []) = refl
  handle_message-ids st false (ok []) = handle_batch-ids o p s st []
  handle_message-ids st true (ok (req ∷ reqs)) =
      let b : (length (req ∷ reqs) == 0) ≡ false = ground arith in
      rw b (handle_batch-ids o p s st (req ∷ reqs))
  handle_message-ids st false (ok (req ∷ reqs)) = handle_batch-ids o p s st (req ∷ reqs)

  answer_line-ids :
      (st : State S) (message : Text)
      → ids (answer_line o p s decode st message).1 ≡ owed_line p decode message
  unfolding answer_line
  answer_line-ids st message = elim (Bool-cases (is_empty message)) [
    | inl b ↦ rw (answer_line, b) refl
    | inr b ↦
        rw (answer_line, b)
          (handle_message-ids st (is_array message) (decode (is_array message) message))
  ]

  identified :
      (is : List (Option Text)) (rs : List RpcResponse)
      → ids rs ≡ is
      → All (λ i. (j : Text) × (i ≡ some j)) is
      → All IsAnswer rs
  identified is [] e h = tt
  identified [] (r ∷ rs) e h = cc
  identified (i ∷ is) (r ∷ rs) e h = (inl (h.0.0, cc), identified is rs (cc) h.1)

  awaited-known : (reqs : List RpcRequest) → All (λ i. (j : Text) × (i ≡ some j)) (awaited reqs)
  awaited-known [] = tt
  awaited-known (req ∷ reqs) = elim (Option-cases req.id) [
    | inl q ↦ rw (q, awaited) (awaited-known reqs)
    | inr (i, q) ↦ rw (q, awaited) ((i, refl), awaited-known reqs)
  ]

  handle_batch-IsAnswer :
      (st : State S) (reqs : List RpcRequest) → All IsAnswer (handle_batch o p s st reqs).1
  handle_batch-IsAnswer st reqs =
      identified (awaited reqs) (handle_batch o p s st reqs).1 (handle_batch-ids o p s st reqs)
        (awaited-known reqs)

  handle_message-IsAnswer :
      (st : State S) (is_batch : Bool) (reqs : Result (List RpcRequest))
      → All IsAnswer (handle_message o p s st is_batch reqs).1
  unfolding handle_message
  handle_message-IsAnswer st is_batch (err e) = (inr refl, tt)
  handle_message-IsAnswer st is_batch (ok reqs) = elim (Bool-cases (is_batch && length reqs == 0)) [
    | inl b ↦ rw b (inr refl, tt)
    | inr b ↦ rw b (handle_batch-IsAnswer st reqs)
  ]

  answer_line-IsAnswer :
      (st : State S) (message : Text) → All IsAnswer (answer_line o p s decode st message).1
  unfolding answer_line
  answer_line-IsAnswer st message = elim (Bool-cases (is_empty message)) [
    | inl b ↦ rw (answer_line, b) tt
    | inr b ↦
        rw (answer_line, b)
          (handle_message-IsAnswer st (is_array message) (decode (is_array message) message))
  ]

  -- As long as the context is live and every write succeeds, STDIOTransport.Start writes one
  -- answer for every line that is owed one, in the order of the lines: to a line that is no JSON
  -- or an empty array the parse error, which has the code -32700 and no id, to any other one
  -- response for each request that is no notification, with its id, in the order of the requests.
  -- Blank lines and lines of notifications are owed none. Its error is that of the scanner.
  pub serve-owed :
      (st : State S) (lines : List Line) (scan_error : Option Failure)
      → All IsQuiet lines
      → (map ids (serve o p s decode st lines scan_error).written ≡ owed p decode lines)
        × All (All IsAnswer) (serve o p s decode st lines scan_error).written
        × ((serve o p s decode st lines scan_error).error ≡ read_error scan_error)
  unfolding serve
  serve-owed st [] scan_error q = (refl, tt, refl)
  serve-owed st (line ∷ lines) scan_error ((live, writes), q) =
      let message = p.trim_space line.text in
      let responses = (answer_line o p s decode st message).1 in
      let t = (answer_line o p s decode st message).0 in
      let answers = answer_line-ids st message in
      let (written, answered, ends) = serve-owed t lines scan_error q in
      let same : (length (owed_line p decode message) == 0) ≡ (length responses == 0) =
        ap (λ n. n == 0) (ap length (sym answers) ∙ length-ids responses) in
      elim (Bool-cases (length responses == 0)) [
        | inl b ↦ rw (serve, live, b, same ∙ b) (written, answered, ends)
        | inr b ↦
            rw (serve, live, b, same ∙ b, writes)
              (rw (answers, written) refl, (answer_line-IsAnswer st message, answered), ends)
      ]
