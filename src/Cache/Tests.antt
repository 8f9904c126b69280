-- ===== src/Cache/Tests.antt =====
-- The theorems on the cache at a concrete history of its sections.
use source_rudder.Prelude.{◌≤◌, ◌≡◌, none, List, [], ◌∷◌, arith, ℤ, pos, ◌≤ℤ◌, Text, bytes, lookup}
use source_rudder.Cache.{new_service, get, entry_view}
use source_rudder.Cache.View.{live_only, view, IsValid}
use source_rudder.Cache.Contract.{get-view}
use source_rudder.Cache.Race.{
  Section, reads, sweeps, sets, deletes_if_present, step, run, noted, run-noted, step-IsValid,
}
use source_rudder.Cache.Deletes.{observers, observers-le_one}
use mathlib.Core.Option

abbrev key : Text
key = bytes "key"

abbrev write : ℤ × Section
write = (pos 5, sets key (bytes "payload") none (pos 0))

abbrev sections : List (ℤ × Section)
sections = write ∷ (pos 6, reads) ∷ (pos 7, sweeps) ∷ (pos 8, deletes_if_present key) ∷ []

abbrev two_deletes : List (ℤ × Section)
two_deletes = (pos 6, deletes_if_present key) ∷ (pos 7, deletes_if_present key) ∷ []

empty-IsValid : IsValid (new_service (pos 60))
unfolding new_service
empty-IsValid = record { distinct = tt; keyed = tt }

run-noted_example :
    view (run (new_service (pos 60)) sections) (pos 9) key
    ≡ live_only (pos 9) (noted (new_service (pos 60)) (λ _. none) sections key)
run-noted_example =
    run-noted (pos 60) (pos 0) (pos 9) sections key
      (omega arith, (omega arith, (omega arith, (omega arith, tt)))) (omega arith)

observers_example :
    (observers key (step (new_service (pos 60)) write) two_deletes ≤ 1)
    × (lookup key (step (new_service (pos 60)) write).entries ≡ none
        → observers key (step (new_service (pos 60)) write) two_deletes ≡ 0)
observers_example =
    observers-le_one key (step (new_service (pos 60)) write) two_deletes
      (step-IsValid (new_service (pos 60)) write empty-IsValid) (tt, (tt, tt))

get_example :
    ((get (step (new_service (pos 60)) write) key (pos 6) (pos 7)).1
      ≡ Option.map entry_view (view (step (new_service (pos 60)) write) (pos 6) key))
    × ((t : ℤ) (j : Text)
        → pos 7 ≤ℤ t
        → view (get (step (new_service (pos 60)) write) key (pos 6) (pos 7)).0 t j
          ≡ view (step (new_service (pos 60)) write) t j)
get_example =
    get-view (step (new_service (pos 60)) write) key (pos 6) (pos 7)
      (step-IsValid (new_service (pos 60)) write empty-IsValid) (omega arith)
