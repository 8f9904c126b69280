-- ===== src/Cache/Race.antt =====
-- Any interleaving of goroutines is a sequence of the parts that hold s.mu. Get is two of them, its
-- read, which changes nothing, and its sweep.
use source_rudder.Prelude.{
  ◌≡◌, refl, sym, ◌∙◌, Option, none, some, List, [], ◌∷◌, arith, if◌then◌else◌, Slice, ℤ, ◌≤ℤ◌,
  Text, text_eq, lookup, lookup-delete,
}
use mathlib.Core.Path.{fun_ext}
use source_rudder.Cache.{
  Entry, Service, sweep, set_with_max_ttl, delete, delete_if_present, clear, keys, effective_ttl,
  new_service,
}
use source_rudder.Cache.View.{
  live_only, view, IsValid, sweep-IsValid, view-sweep, set_with_max_ttl-IsValid, delete-IsValid,
}
use source_rudder.Cache.Contract.{fresh, view-set_with_max_ttl, delete_if_present_lem}

pub data Section : Type 0 where
  reads sweeps : Section
  sets : Text → Text → Slice Text → ℤ → Section
  deletes deletes_if_present : Text → Section
  clears lists_keys : Section

unfoldable pub step : Service → ℤ × Section → Service
step s (now, reads) = s
step s (now, sweeps) = sweep s now
step s (now, sets k payload sources max_ttl) = set_with_max_ttl s k payload sources max_ttl now
step s (now, deletes k) = delete s k
step s (now, deletes_if_present k) = (delete_if_present s k).0
step s (now, clears) = clear s
step s (now, lists_keys) = (keys s now).0

pub run : Service → List (ℤ × Section) → Service
run s [] = s
run s (c ∷ cs) = run (step s c) cs

-- Every locked section of the cache keeps its keys distinct and every entry under its own key.
pub step-IsValid : (s : Service) (c : ℤ × Section) → IsValid s → IsValid (step s c)
unfolding step keys clear
step-IsValid s (now, reads) v = v
step-IsValid s (now, sweeps) v = sweep-IsValid s now v
step-IsValid s (now, sets k payload sources max_ttl) v =
    set_with_max_ttl-IsValid s k payload sources max_ttl now v
step-IsValid s (now, deletes k) v = delete-IsValid s k v
step-IsValid s (now, deletes_if_present k) v =
    rw ((delete_if_present_lem s k).0) (delete-IsValid s k v)
step-IsValid s (now, clears) v = record { distinct = tt; keyed = tt }
step-IsValid s (now, lists_keys) v = sweep-IsValid s now v

-- A store that forgets only what it is told to forget.
abbrev pub Store : Type 0
Store = Text → Option Entry

pub note : Service → Store → ℤ × Section → Store
note s st (now, sets k payload sources max_ttl) j =
    if text_eq k j then some (fresh s k payload sources max_ttl now) else st j
note s st (now, deletes k) j = if text_eq k j then none else st j
note s st (now, deletes_if_present k) j = if text_eq k j then none else st j
note s st (now, clears) j = none
note s st (now, _) j = st j

pub noted : Service → Store → List (ℤ × Section) → Store
noted s st [] = st
noted s st (c ∷ cs) = noted s (note s st c) cs

-- The sections are in the order of their moments, none before `start`.
abbrev pub Ordered : ℤ → List (ℤ × Section) → Type 0
Ordered start [] = Unit
Ordered start ((now, c) ∷ cs) = (start ≤ℤ now) × Ordered now cs

abbrev pub last_moment : ℤ → List (ℤ × Section) → ℤ
last_moment start [] = start
last_moment start ((now, c) ∷ cs) = last_moment now cs

-- From the moment `start` on, a reader of `s` is shown the live part of `st`.
abbrev pub Shows : ℤ → Service → Store → Type 0
Shows start s st = (t : ℤ) (j : Text) → start ≤ℤ t → view s t j ≡ live_only t (st j)

≤ℤ-trans : (a b c : ℤ) → a ≤ℤ b → b ≤ℤ c → a ≤ℤ c
≤ℤ-trans a b c h k = omega arith

step-ttl : (s : Service) (c : ℤ × Section) → (step s c).ttl ≡ s.ttl
unfolding step set_with_max_ttl delete clear keys sweep delete_if_present
step-ttl s (now, reads) = refl
step-ttl s (now, sweeps) = refl
step-ttl s (now, sets k payload sources max_ttl) = refl
step-ttl s (now, deletes k) = refl
step-ttl s (now, deletes_if_present k) = ground arith
step-ttl s (now, clears) = refl
step-ttl s (now, lists_keys) = refl

view-delete :
    (s : Service) (k : Text) (t : ℤ) (j : Text)
    → view (delete s k) t j ≡ (if text_eq k j then none else view s t j)
unfolding delete
view-delete s k t j = ground (arith, lookup-delete j k s.entries)

step-Shows :
    (s : Service) (st : Store) (start now : ℤ) (c : Section)
    → IsValid s
    → start ≤ℤ now
    → Shows start s st
    → Shows now (step s (now, c)) (note s st (now, c))
unfolding step note keys clear lookup
step-Shows s st start now reads v h shows t j p = shows t j (≤ℤ-trans start now t h p)
step-Shows s st start now sweeps v h shows t j p =
    view-sweep s now t j v p ∙ shows t j (≤ℤ-trans start now t h p)
step-Shows s st start now (sets k payload sources max_ttl) v h shows t j p = ground (
  arith,
  view-set_with_max_ttl s k payload sources max_ttl now t j v p,
  shows t j (≤ℤ-trans start now t h p),
)
step-Shows s st start now (deletes k) v h shows t j p =
    ground (arith, view-delete s k t j, shows t j (≤ℤ-trans start now t h p))
step-Shows s st start now (deletes_if_present k) v h shows t j p =
    rw ((delete_if_present_lem s k).0)
      (ground (arith, view-delete s k t j, shows t j (≤ℤ-trans start now t h p)))
step-Shows s st start now clears v h shows t j p = refl
step-Shows s st start now lists_keys v h shows t j p =
    view-sweep s now t j v p ∙ shows t j (≤ℤ-trans start now t h p)

note-ttl :
    (s r : Service) (st : Store) (c : ℤ × Section) (j : Text)
    → s.ttl ≡ r.ttl
    → note s st c j ≡ note r st c j
unfolding note effective_ttl
note-ttl s r st (now, sets k payload sources max_ttl) j h = rw h refl
note-ttl s r st (now, _) j h = refl

noted_ttl :
    (s r : Service) (st : Store) (cs : List (ℤ × Section))
    → s.ttl ≡ r.ttl
    → noted s st cs ≡ noted r st cs
unfolding noted
noted_ttl s r st [] h = refl
noted_ttl s r st (c ∷ cs) h =
    rw (fun_ext (λ j. note-ttl s r st c j h)) (noted_ttl s r (note r st c) cs h)

run-Shows :
    (s : Service) (st : Store) (start : ℤ) (cs : List (ℤ × Section))
    → IsValid s
    → Ordered start cs
    → Shows start s st
    → Shows (last_moment start cs) (run s cs) (noted s st cs)
unfolding run noted
run-Shows s st start [] v o shows = shows
run-Shows s st start ((now, c) ∷ cs) v o shows =
    rw (noted_ttl s (step s (now, c)) (note s st (now, c)) cs (sym (step-ttl s (now, c)))) (
      run-Shows (step s (now, c)) (note s st (now, c)) now cs (step-IsValid s (now, c) v) o.1
        (step-Shows s st start now c v o.0 shows))

-- Starting from a new cache, for any sequence of locked sections in the order of their moments, a
-- reader at any moment after the last one is shown exactly the entries that were written and not
-- deleted, overwritten or cleared since, so long as they have not expired: sweeps are invisible.
pub run-noted :
    (ttl_seconds start t : ℤ) (cs : List (ℤ × Section)) (j : Text)
    → Ordered start cs
    → last_moment start cs ≤ℤ t
    → view (run (new_service ttl_seconds) cs) t j
      ≡ live_only t (noted (new_service ttl_seconds) (λ _. none) cs j)
unfolding new_service lookup
run-noted ttl_seconds start t cs j o p =
    run-Shows (new_service ttl_seconds) (λ _. none) start cs (record { distinct = tt; keyed = tt })
      o (λ _ _ _. refl) t j p
