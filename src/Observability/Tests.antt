-- ===== src/Observability/Tests.antt =====
-- Two calls of Default that both read nil, and one of which makes the instance for both.
use source_rudder.Prelude.{refl, some, [], ◌∷◌}
use source_rudder.Observability.Shared.{
  Instances, asking, missing, returned, no_instance, read_default, make_default, call, read, lock,
  Reach, here, later,
}
use source_rudder.Observability.Shared.Unique.{IsUnique, shared-IsUnique}

abbrev two_callers : Instances
two_callers = record { default_metrics = some 0; made = 1; callers = returned 0 ∷ returned 0 ∷ [] }

two_called : Reach no_instance two_callers
unfolding read_default make_default
two_called =
    later
      (later
        (later (later (later (later here call) call) (read [] (asking ∷ []) refl))
          (read (missing ∷ []) [] refl))
        (lock [] (missing ∷ []) refl))
      (lock (returned 0 ∷ []) [] refl)

shared-IsUnique_example : IsUnique two_callers
shared-IsUnique_example = shared-IsUnique two_called
