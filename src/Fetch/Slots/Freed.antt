-- ===== src/Fetch/Slots/Freed.antt =====
-- A slot is held by a fetch that runs, and given back.
use source_rudder.Prelude.{
  ℕ, ◌+◌, ◌≤◌, ◌≡◌, refl, sym, ap, ◌∙◌, Bool, false, List, [], ◌∷◌, ◌++◌, map, arith,
}
use mathlib.Core.List.{append_assoc}
use source_rudder.Fetch.Slots.{
  FetchState, queued, fetching, over, Slots, free_slots, Turn, take_slot, give_back, context_done,
  Step, start, turn, Reach, here, later, running,
}
use source_rudder.Fetch.Pool.{max_concurrent_fetches}

running-append : (a b : List FetchState) → running (a ++ b) ≡ running a + running b
unfolding running
running-append [] b = omega arith
running-append (queued ∷ a) b = running-append a b
running-append (fetching ∷ a) b = omega (arith, running-append a b)
running-append (over ∷ a) b = running-append a b

-- The slots that are taken are those of the fetches that run, and no more than there are.
pub record AllHeld (s : Slots) : Type 0 where
  pub held : s.taken ≡ running s.fetches
  pub bounded : running s.fetches ≤ max_concurrent_fetches

-- A fetch that goes on.
running-turn :
    {c : Bool} {n m : ℕ} {x y : FetchState} (before after : List FetchState)
    → Turn c n x m y
    → n ≡ running (before ++ x ∷ after)
    → n ≤ max_concurrent_fetches
    → (m ≡ running (before ++ y ∷ after)) × (m ≤ max_concurrent_fetches)
unfolding running
running-turn before after (take_slot {n} l) h b = (
  omega
      (arith, h, running-append before (queued ∷ after), running-append before (fetching ∷ after)),
  l,
)
running-turn before after (give_back {n}) h b = (
  omega (arith, h, running-append before (fetching ∷ after), running-append before (over ∷ after)),
  omega (arith, b),
)
running-turn before after (context_done {n} d) h b = (
  omega (arith, h, running-append before (queued ∷ after), running-append before (over ∷ after)),
  b,
)

Step-AllHeld : {c : Bool} {s t : Slots} → Step c s t → AllHeld s → AllHeld t
unfolding running
Step-AllHeld start h = record { held = h.held; bounded = h.bounded }
Step-AllHeld {s} (turn before x after e t) h =
    let (held, b) = running-turn before after t (h.held ∙ ap running e) (rw h.held h.bounded) in
    record { held = held; bounded = rw (sym held) b }

-- In whatever order fetches start, take a slot, return and are cancelled while they wait, the
-- elements in the channel of slots are as many as the fetches that have taken a slot and not
-- returned, and these are at most eight.
pub free_slots-AllHeld : {c : Bool} {s : Slots} → Reach c free_slots s → AllHeld s
unfolding running
free_slots-AllHeld here = record { held = refl; bounded = omega arith }
free_slots-AllHeld (later r st) = Step-AllHeld st (free_slots-AllHeld r)

first : {c : Bool} {s t u : Slots} → Step c s t → Reach c t u → Reach c s u
first st here = later here st
first st (later r last) = later (first st r) last

joined : {c : Bool} {s t u : Slots} → Reach c s t → Reach c t u → Reach c s u
joined r here = r
joined r (later q last) = later (joined r q) last

-- The fetches when those that run have returned.
unfoldable returned : List FetchState → List FetchState
returned [] = []
returned (queued ∷ fs) = queued ∷ returned fs
returned (fetching ∷ fs) = over ∷ returned fs
returned (over ∷ fs) = over ∷ returned fs

-- One fetch is left behind.
passed :
    {n m : ℕ} (x : FetchState) (before fs gs : List FetchState)
    → Reach false
        (record { taken = n; fetches = (before ++ x ∷ []) ++ fs })
        (record { taken = m; fetches = (before ++ x ∷ []) ++ gs })
    → Reach false
        (record { taken = n; fetches = before ++ x ∷ fs })
        (record { taken = m; fetches = before ++ x ∷ gs })
passed {n} {m} x before fs gs r =
    rw (sym (append_assoc before (x ∷ []) fs), sym (append_assoc before (x ∷ []) gs)) r

-- The fetches that run return, one after the other.
give_all_back :
    (after before : List FetchState)
    → Reach false
        (record { taken = running after; fetches = before ++ after })
        (record { taken = 0; fetches = before ++ returned after })
unfolding running returned
give_all_back [] before = here
give_all_back (queued ∷ fs) before =
    passed queued before fs (returned fs) (give_all_back fs (before ++ queued ∷ []))
give_all_back (over ∷ fs) before =
    passed over before fs (returned fs) (give_all_back fs (before ++ over ∷ []))
give_all_back (fetching ∷ fs) before =
    first (turn before fetching fs refl give_back)
      (passed over before fs (returned fs) (give_all_back fs (before ++ over ∷ [])))

-- Those that wait take a slot and return, one after the other.
serve_all :
    (after before : List FetchState)
    → Reach false
        (record { taken = 0; fetches = before ++ returned after })
        (record { taken = 0; fetches = before ++ map (λ _. over) after })
unfolding returned
serve_all [] before = here
serve_all (queued ∷ fs) before =
    first (turn before queued (returned fs) refl (take_slot (omega arith))) (
      first (turn before fetching (returned fs) refl give_back) (
        passed over before (returned fs) (map (λ _. over) fs) (serve_all fs (before ++ over ∷ []))))
serve_all (over ∷ fs) before =
    passed over before (returned fs) (map (λ _. over) fs) (serve_all fs (before ++ over ∷ []))
serve_all (fetching ∷ fs) before =
    passed over before (returned fs) (map (λ _. over) fs) (serve_all fs (before ++ over ∷ []))

all_over :
    (n : ℕ) (fs : List FetchState)
    → n ≡ running fs
    → Reach false
        (record { taken = n; fetches = fs })
        (record { taken = 0; fetches = map (λ _. over) fs })
all_over n fs h = rw h (joined (give_all_back fs []) (serve_all fs []))

-- From every state that fetches can reach, all that have started can take a slot and return,
-- although no context ends and no other fetch starts; and the channel of slots is then empty: no
-- slot is lost.
pub fetches-reach_over :
    {c : Bool} {s : Slots}
    → Reach c free_slots s
    → Reach false s (record { taken = 0; fetches = map (λ _. over) s.fetches })
fetches-reach_over {c} {s} r = all_over s.taken s.fetches (free_slots-AllHeld r).held
