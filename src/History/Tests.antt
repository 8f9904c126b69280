-- ===== src/History/Tests.antt =====
-- The theorems on the history at a service that keeps two entries.
use source_rudder.Prelude.{◌≡◌, List, [], ◌∷◌, take, ℤ, pos, Text, bytes}
use source_rudder.History.{Entry, HistoryService, new_history_service}
use source_rudder.History.Window.{all_entries, appended, new_history_service-window}

abbrev asked : Text → Entry
asked query = record { query = query; source = bytes "web"; timestamp = pos 0 }

abbrev calls : List (Entry × ℤ)
calls =
    (asked (bytes "go"), pos 1)
    ∷ (asked (bytes "rust"), pos 2)
    ∷ (asked (bytes "go modules"), pos 3)
    ∷ []

window_example :
    (appended (new_history_service (pos 2)) calls).entries
    ≡ take (new_history_service (pos 2)).bound (all_entries [] calls)
window_example = new_history_service-window (pos 2) calls

abbrev kept : HistoryService
kept = appended (new_history_service (pos 2)) calls
