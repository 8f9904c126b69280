-- ===== src/History.antt =====
-- internal/cache/history.go: the HistoryService. Its mutex is held throughout each method, so each
-- is one function. Moments are counted from Go's zero time, so IsZero is equality with 0.
pub mod Window
mod Tests
use source_rudder.Prelude.{
  ℕ, ◌-◌, ◌||◌, List, [], ◌∷◌, leb, if◌then◌else◌, length, take, select, ℤ, pos, pos_part, ltb_ℤ,
  leb_ℤ, eqb_ℤ, Text, is_empty, contains,
}

pub record Entry : Type 0 where
  pub query : Text
  pub source : Text
  pub timestamp : ℤ

pub record HistoryService : Type 0 where
  pub entries : List Entry
  pub bound : ℕ

unfoldable pub new_history_service : ℤ → HistoryService
new_history_service bound = record {
  entries = [];
  bound = if leb_ℤ bound (pos 0) then 100 else pos_part bound;
}

-- The timestamp that Append stamps: the current time, unless the caller has set one.
abbrev pub stamp : Entry → ℤ → Entry
stamp e now = if eqb_ℤ e.timestamp (pos 0) then record e { timestamp = now } else e

-- s.entries[:len(s.entries)-1] when the buffer is full.
trimmed : HistoryService → List Entry
trimmed s =
    if leb s.bound (length s.entries) then take (length s.entries - 1) s.entries else s.entries

unfoldable pub append : HistoryService → Entry → ℤ → HistoryService
unfolding trimmed
append s e now = record s { entries = stamp e now ∷ trimmed s }

-- The entries that List chooses from.
pub narrowed : HistoryService → Text → List Entry
narrowed s query =
    if is_empty query then s.entries else select (λ e. contains e.query query) s.entries

pub list : HistoryService → ℤ → Text → List Entry
unfolding narrowed
list s limit query =
    let src = narrowed s query in
    if leb_ℤ limit (pos 0) || ltb_ℤ (pos (length src)) limit
    then take (length src) src
    else take (pos_part limit) src

pub len : HistoryService → ℕ
len s = length s.entries
