-- ===== src/Fetch/Slots.antt =====
-- The slots of doFetchWithRetries of internal/fetch/fetcher.go: a channel that as many fetches at once
-- can put an element into as it has room for. Fetches are steps in any order.
pub mod Freed
mod Tests
use source_rudder.Prelude.{ℕ, suc, ◌<◌, ◌≡◌, Bool, true, List, [], ◌∷◌, ◌++◌}
use source_rudder.Fetch.Pool.{max_concurrent_fetches}

-- A fetch: before it has put its element into the channel, until it returns, and when it has returned.
pub data FetchState : Type 0 where
  queued fetching over : FetchState

pub record Slots : Type 0 where
  -- The elements in the channel.
  pub taken : ℕ
  pub fetches : List FetchState

abbrev pub free_slots : Slots
free_slots = record { taken = 0; fetches = [] }

-- One step of one fetch, from so many taken slots to so many. Only where `cancels` may a context end.
pub data Turn (cancels : Bool) : ℕ → FetchState → ℕ → FetchState → Type 0 where
  take_slot : {n : ℕ} → n < max_concurrent_fetches → Turn cancels n queued (suc n) fetching
  -- The deferred receive, on every return.
  give_back : {n : ℕ} → Turn cancels (suc n) fetching n over
  context_done : {n : ℕ} → cancels ≡ true → Turn cancels n queued n over

pub data Step (cancels : Bool) (s : Slots) : Slots → Type 0 where
  start : Step cancels s (record s { fetches = queued ∷ s.fetches })
  turn :
      (before : List FetchState) (x : FetchState) (after : List FetchState) {y : FetchState} {n : ℕ}
      → s.fetches ≡ before ++ x ∷ after
      → Turn cancels s.taken x n y
      → Step cancels s (record { taken = n; fetches = before ++ y ∷ after })

pub data Reach (cancels : Bool) (s : Slots) : Slots → Type 0 where
  here : Reach cancels s s
  later : {t u : Slots} → Reach cancels s t → Step cancels t u → Reach cancels s u

-- How many fetches hold a slot.
unfoldable pub running : List FetchState → ℕ
running [] = 0
running (queued ∷ fs) = running fs
running (fetching ∷ fs) = suc (running fs)
running (over ∷ fs) = running fs
