-- ===== src/Observability/Shared/Unique.antt =====
-- There is one shared instance.
use source_rudder.Prelude.{
  All-replace, ℕ, ◌≡◌, refl, sym, ◌⊎◌, inl, inr, Option, none, some, List, [], ◌∷◌, ◌++◌, All,
}
use source_rudder.Observability.Shared.{
  Caller, asking, missing, returned, Instances, no_instance, read_default, make_default, Step, call,
  read, lock, Reach, here, later,
}

-- A call that has returned has returned this instance.
abbrev pub Returns : Option ℕ → Caller → Type 0
Returns installed asking = Unit
Returns installed missing = Unit
Returns installed (returned m) = installed ≡ some m

-- The calls that have returned got the instance that is installed, and it is the only one that was made.
pub record IsUnique (s : Instances) : Type 0 where
  pub one :
      ((s.default_metrics ≡ none) × (s.made ≡ 0)) ⊎ ((s.default_metrics ≡ some 0) × (s.made ≡ 1))
  pub same : All (Returns s.default_metrics) s.callers

-- While nothing is installed no call has returned.
Returns-installed : (m : ℕ) (cs : List Caller) → All (Returns none) cs → All (Returns (some m)) cs
Returns-installed m [] h = tt
Returns-installed m (asking ∷ cs) h = (tt, Returns-installed m cs h.1)
Returns-installed m (missing ∷ cs) h = (tt, Returns-installed m cs h.1)
Returns-installed m (returned n ∷ cs) h = cc

turned :
    (installed : Option ℕ) (before after cs : List Caller) (x y : Caller)
    → cs ≡ before ++ x ∷ after
    → Returns installed y
    → All (Returns installed) cs
    → All (Returns installed) (before ++ y ∷ after)
turned installed before after cs x y e h q =
    All-replace (Returns installed) before after x y h (rw (sym e) q)

Step-IsUnique : {s t : Instances} → Step s t → IsUnique s → IsUnique t
unfolding read_default make_default
Step-IsUnique call u = record { one = u.one; same = (tt, u.same) }
Step-IsUnique {s} (read before after e) u = elim u.one [
  | inl (n, z) ↦
      rw (read_default, n)
        (record {
          one = inl (n, z);
          same = turned s.default_metrics before after s.callers asking missing e tt u.same;
        })
  | inr (i, z) ↦
      rw (read_default, i)
        (record {
          one = inr (i, z);
          same = turned s.default_metrics before after s.callers asking (returned 0) e i u.same;
        })
]
Step-IsUnique {s} (lock before after e) u = elim u.one [
  | inl (n, z) ↦
      rw (make_default, n, z)
        (record {
          one = inr (refl, refl);
          same =
              turned (some 0) before after s.callers missing (returned 0) e refl
                (Returns-installed 0 s.callers (rw (sym n) u.same));
        })
  | inr (i, z) ↦
      rw (make_default, i)
        (record {
          one = inr (i, z);
          same = turned s.default_metrics before after s.callers missing (returned 0) e i u.same;
        })
]

-- As long as nobody calls SetDefault, in whatever order the locked sections of any number of calls
-- of Default run, New is called at most once, and all calls that have returned got the same
-- instance, which is the one that is installed.
pub shared-IsUnique : {s : Instances} → Reach no_instance s → IsUnique s
shared-IsUnique here = record { one = inl (refl, refl); same = tt }
shared-IsUnique (later r st) = Step-IsUnique st (shared-IsUnique r)
