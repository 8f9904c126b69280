-- ===== src/Mcp/Streams/Drained.antt =====
-- The channel is closed once, and every event stream can then end.
use source_rudder.Prelude.{
  All-replace, ◌≤◌, ◌≡◌, refl, sym, ap, ◌∙◌, ◌⊎◌, inl, inr, Bool, true, false, List, [], ◌∷◌, ◌++◌,
  arith, if◌then◌else◌, Bool-cases, length, length-append, All, All-append,
}
use mathlib.Core.List.{append_assoc, append-nil}
use source_rudder.Mcp.Streams.{
  not_pinged, not_greeted, Turn, StreamState, greeting, waiting, ended, Streams, no_streams,
  sse_shutdown_signal, end_sse_streams, greeted, shut_down, Step, pinged, context_done, connect,
  shut, turn, Reach, here, later,
}

-- The channel is closed exactly if the flag is set, and is there when anybody uses it.
pub record Inv (s : Streams) : Type 0 where
  pub closed_once : s.closes ≡ (if s.told then 1 else 0)
  pub there : (s.made ≡ true) ⊎ ((s.told ≡ false) × (s.calls ≡ []))

end_sse_streams-Inv : (s : Streams) → Inv s → Inv (end_sse_streams s)
unfolding end_sse_streams sse_shutdown_signal
end_sse_streams-Inv s inv = elim (Bool-cases s.told) [
  | inl b ↦ rw b (record { closed_once = ground (arith, inv.closed_once, b); there = inl refl })
  | inr b ↦ rw b (record { closed_once = ground (arith, inv.closed_once, b); there = inl refl })
]

Step-Inv : {d : Bool} {s t : Streams} → Step d s t → Inv s → Inv t
unfolding sse_shutdown_signal
Step-Inv connect inv = record { closed_once = inv.closed_once; there = inl refl }
Step-Inv {s} shut inv = end_sse_streams-Inv s inv
Step-Inv {s} (turn before x after e t) inv = record {
  closed_once = inv.closed_once;
  there = elim inv.there [
    | inl m ↦ inl m
    | inr (_, c) ↦ absurd (not_empty before x after (sym e ∙ c))
  ];
}
  where
    not_empty :
        (b : List StreamState) (x : StreamState) (a : List StreamState) → b ++ x ∷ a ≡ [] → ⊥
    not_empty [] x a h = cc
    not_empty (y ∷ b) x a h = cc

Reach-Inv : {d : Bool} {s t : Streams} → Reach d s t → Inv s → Inv t
Reach-Inv here inv = inv
Reach-Inv (later r st) inv = Step-Inv st (Reach-Inv r inv)

no_streams-Inv : Inv no_streams
no_streams-Inv = record { closed_once = refl; there = inr (refl, refl) }

-- In whatever order event streams connect, go on and end and the server is told to end them, also
-- when it is told again and again, the channel that tells them is closed at most once.
pub closes-le_one : {d : Bool} {s : Streams} → Reach d no_streams s → s.closes ≤ 1
closes-le_one {s} r = let inv = Reach-Inv r no_streams-Inv in ground (arith, inv.closed_once)

first : {s t u : Streams} → Step false s t → Reach false t u → Reach false s u
first st here = later here st
first st (later r last) = later (first st r) last

-- What is left when every call has returned.
pub record IsDrained (s t : Streams) : Type 0 where
  pub reached : Reach false s t
  pub all_ended : All (λ x. x ≡ ended) t.calls
  pub nobody_lost : length t.calls ≡ length s.calls

-- One call after the other goes on until it has returned.
drain :
    (after before : List StreamState) (s : Streams)
    → 1 ≤ s.closes
    → All (λ x. x ≡ ended) before
    → s.calls ≡ before ++ after
    → (t : Streams) × IsDrained s t
drain [] before s c h e =
    (s, record { reached = here; all_ended = rw (e, append-nil before) h; nobody_lost = refl })
drain (greeting ∷ after) before s c h e =
    let t : Streams = record s { calls = before ++ waiting ∷ after } in
    let u : Streams = record s { calls = before ++ ended ∷ after } in
    let (v, d) =
      drain after (before ++ ended ∷ []) u c (All-append _ before (ended ∷ []) h (refl, tt))
        (sym (append_assoc before (ended ∷ []) after)) in
    (
      v,
      record {
        reached =
            first (turn before greeting after e greeted)
              (first {s = t} (turn before waiting after refl (shut_down c)) d.reached);
        all_ended = d.all_ended;
        nobody_lost = omega (
          arith,
          d.nobody_lost,
          ap length e,
          length-append before (greeting ∷ after),
          length-append before (ended ∷ after),
        );
      },
    )
drain (waiting ∷ after) before s c h e =
    let u : Streams = record s { calls = before ++ ended ∷ after } in
    let (v, d) =
      drain after (before ++ ended ∷ []) u c (All-append _ before (ended ∷ []) h (refl, tt))
        (sym (append_assoc before (ended ∷ []) after)) in
    (
      v,
      record {
        reached = first (turn before waiting after e (shut_down c)) d.reached;
        all_ended = d.all_ended;
        nobody_lost = omega (
          arith,
          d.nobody_lost,
          ap length e,
          length-append before (waiting ∷ after),
          length-append before (ended ∷ after),
        );
      },
    )
drain (ended ∷ after) before s c h e =
    drain after (before ++ ended ∷ []) s c (All-append _ before (ended ∷ []) h (refl, tt))
      (e ∙ sym (append_assoc before (ended ∷ []) after))

closed : (s : Streams) → s.closes ≡ (if s.told then 1 else 0) → 1 ≤ (end_sse_streams s).closes
unfolding end_sse_streams sse_shutdown_signal
closed s h = elim (Bool-cases s.told) [
  | inl b ↦ rw b (ground (arith, h, b))
  | inr b ↦ rw b (ground (arith, h, b))
]

abbrev IsOpen : StreamState → Type 0
IsOpen greeting = Unit
IsOpen waiting = Unit
IsOpen ended = ⊥

-- Streams end for a reason: a disturbance, or the closed channel; otherwise all of them are open.
abbrev pub OpenUntilTold : Bool → Streams → Type 0
OpenUntilTold d s = (d ≡ true) ⊎ (1 ≤ s.closes) ⊎ All IsOpen s.calls

turn-OpenUntilTold :
    {d : Bool} (s : Streams) {x y : StreamState} (before after : List StreamState)
    → s.calls ≡ before ++ x ∷ after
    → Turn d s.closes x y
    → All IsOpen s.calls
    → OpenUntilTold d (record s { calls = before ++ y ∷ after })
turn-OpenUntilTold s before after e greeted h =
    inr (inr (All-replace IsOpen before after greeting waiting tt (rw (sym e) h)))
turn-OpenUntilTold s before after e pinged h =
    inr (inr (All-replace IsOpen before after waiting waiting tt (rw (sym e) h)))
turn-OpenUntilTold s before after e (not_greeted d) h = inl d
turn-OpenUntilTold s before after e (not_pinged d) h = inl d
turn-OpenUntilTold s before after e (context_done d) h = inl d
turn-OpenUntilTold s before after e (shut_down c) h = inr (inl c)

end_sse_streams-closes : (s : Streams) → s.closes ≤ (end_sse_streams s).closes
unfolding end_sse_streams sse_shutdown_signal
end_sse_streams-closes s = elim (Bool-cases s.told) [
  | inl b ↦ rw b (omega arith)
  | inr b ↦ rw b (omega arith)
]

end_sse_streams-calls : (s : Streams) → (end_sse_streams s).calls ≡ s.calls
unfolding end_sse_streams sse_shutdown_signal
end_sse_streams-calls s = elim (Bool-cases s.told) [ inl b ↦ rw b refl | inr b ↦ rw b refl ]

Step-OpenUntilTold : {d : Bool} {s t : Streams} → Step d s t → OpenUntilTold d s → OpenUntilTold d t
unfolding sse_shutdown_signal
Step-OpenUntilTold st (inl d) = inl d
Step-OpenUntilTold connect (inr (inl c)) = inr (inl c)
Step-OpenUntilTold {s = s} shut (inr (inl c)) =
    inr (inl (omega (arith, c, end_sse_streams-closes s)))
Step-OpenUntilTold (turn before x after e t) (inr (inl c)) = inr (inl c)
Step-OpenUntilTold connect (inr (inr h)) = inr (inr (tt, h))
Step-OpenUntilTold {s = s} shut (inr (inr h)) = inr (inr (rw (end_sse_streams-calls s) h))
Step-OpenUntilTold {s = s} (turn before x after e t) (inr (inr h)) =
    turn-OpenUntilTold s before after e t h

Reach-OpenUntilTold : {d : Bool} {s : Streams} → Reach d no_streams s → OpenUntilTold d s
Reach-OpenUntilTold here = inr (inr tt)
Reach-OpenUntilTold (later r st) = Step-OpenUntilTold st (Reach-OpenUntilTold r)

-- In every state that the event streams can reach, once endSSEStreams has run, every stream that
-- is open can go on until all of them have ended, although no write fails and no context ends, and
-- these are as many as were open or ended before. And a stream that has ended has a reason: a
-- write may have failed or a context ended, or the channel has been closed; where neither is so,
-- all streams are open.
pub end_sse_streams-IsDrained :
    {d : Bool} {s : Streams}
    → Reach d no_streams s
    → ((t : Streams) × IsDrained (end_sse_streams s) t) × OpenUntilTold d s
end_sse_streams-IsDrained {d} {s} r = (
  drain (end_sse_streams s).calls [] (end_sse_streams s)
      (closed s (Reach-Inv r no_streams-Inv).closed_once) tt refl,
  Reach-OpenUntilTold r,
)
