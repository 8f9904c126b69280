-- ===== src/Fetch/Slots/Tests.antt =====
-- Two fetches, one of which waits while the other runs.
use source_rudder.Prelude.{refl, true, false, [], ◌∷◌, arith}
use source_rudder.Fetch.Slots.{
  queued, fetching, over, Slots, free_slots, take_slot, start, turn, Reach, here, later,
}
use source_rudder.Fetch.Slots.Freed.{AllHeld, free_slots-AllHeld, fetches-reach_over}

abbrev two_fetches : Slots
two_fetches = record { taken = 1; fetches = queued ∷ fetching ∷ [] }

two_started : Reach true free_slots two_fetches
two_started =
    later (later (later here start) (turn [] queued [] refl (take_slot (omega arith)))) start

free_slots-AllHeld_example : AllHeld two_fetches
free_slots-AllHeld_example = free_slots-AllHeld two_started

fetches-reach_over_example :
    Reach false two_fetches (record { taken = 0; fetches = over ∷ over ∷ [] })
fetches-reach_over_example = fetches-reach_over two_started
