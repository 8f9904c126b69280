-- ===== src/Cache/Deletes.antt =====
-- DeleteIfPresent under concurrency: who is told that the entry was there.
use source_rudder.Prelude.{
  ℕ, ◌+◌, ◌≤◌, ◌≡◌, refl, ◌≢◌, inl, inr, Bool, true, false, ◌&&◌, none, List, [], ◌∷◌, arith,
  if◌then◌else◌, Bool-cases, All, ℤ, Text, text_eq, text_eq_iff, lookup, lookup-insert,
  lookup-delete,
}
use source_rudder.Cache.{
  Service, delete_expired, sweep, set_with_max_ttl, delete, delete_if_present, clear, keys,
}
use source_rudder.Cache.View.{lookup-delete_expired, IsValid}
use source_rudder.Cache.Contract.{fresh, delete_if_present_lem}
use source_rudder.Cache.Race.{
  Section, reads, sweeps, sets, deletes, deletes_if_present, clears, lists_keys, step, step-IsValid,
}

-- The section does not write the key.
abbrev pub IsOther : Text → ℤ × Section → Type 0
IsOther key (now, sets k payload sources max_ttl) = k ≢ key
IsOther key (now, _) = Unit

-- Whether the section is a DeleteIfPresent for the key that answers true.
pub answers : Text → Service → ℤ × Section → Bool
answers key s (now, deletes_if_present k) = text_eq k key && (delete_if_present s k).1
answers key s (now, _) = false

-- How many calls of DeleteIfPresent for the key answer true in a history.
pub observers : Text → Service → List (ℤ × Section) → ℕ
observers key s [] = 0
observers key s (c ∷ cs) = (if answers key s c then 1 else 0) + observers key (step s c) cs

absent-step :
    (key : Text) (s : Service) (now : ℤ) (c : Section)
    → IsValid s
    → IsOther key (now, c)
    → lookup key s.entries ≡ none
    → lookup key (step s (now, c)).entries ≡ none
unfolding step sweep keys clear delete set_with_max_ttl lookup
absent-step key s now reads v n h = h
absent-step key s now sweeps v n h = rw (lookup-delete_expired now key s.entries v.distinct, h) refl
absent-step key s now (sets k payload sources max_ttl) v n h = ground (
  arith,
  lookup-insert key k (fresh s k payload sources max_ttl now) (delete_expired now s.entries),
  lookup-delete_expired now key s.entries v.distinct,
  text_eq_iff k key,
  n,
)
absent-step key s now (deletes k) v n h = ground (arith, lookup-delete key k s.entries)
absent-step key s now (deletes_if_present k) v n h =
    rw ((delete_if_present_lem s k).0) (ground (arith, lookup-delete key k s.entries))
absent-step key s now clears v n h = refl
absent-step key s now lists_keys v n h =
    rw (lookup-delete_expired now key s.entries v.distinct, h) refl

answers_absent :
    (key : Text) (s : Service) (c : ℤ × Section)
    → lookup key s.entries ≡ none
    → answers key s c ≡ false
unfolding answers delete_if_present
answers_absent key s (now, deletes_if_present k) h = ground (arith, text_eq_iff k key)
answers_absent key s (now, _) h = refl

absent-answers :
    (key : Text) (s : Service) (c : ℤ × Section)
    → answers key s c ≡ true
    → lookup key (step s c).entries ≡ none
unfolding answers step delete
absent-answers key s (now, deletes_if_present k) h =
    rw ((delete_if_present_lem s k).0) (ground (arith, lookup-delete key k s.entries))
absent-answers key s (now, _) h = cc

observers_absent :
    (key : Text) (s : Service) (cs : List (ℤ × Section))
    → IsValid s
    → All (IsOther key) cs
    → lookup key s.entries ≡ none
    → observers key s cs ≡ 0
unfolding observers
observers_absent key s [] v n h = refl
observers_absent key s ((now, c) ∷ cs) v n h = rw (answers_absent key s (now, c) h) (
    omega (
      arith,
      observers_absent key (step s (now, c)) cs (step-IsValid s (now, c) v) n.1
          (absent-step key s now c v n.0 h),
    ))

-- In any sequence of locked sections on a valid cache in which nobody writes the key, at most one
-- call of DeleteIfPresent for it answers true, and none does if the cache had no entry under it.
pub observers-le_one :
    (key : Text) (s : Service) (cs : List (ℤ × Section))
    → IsValid s
    → All (IsOther key) cs
    → (observers key s cs ≤ 1) × (lookup key s.entries ≡ none → observers key s cs ≡ 0)
unfolding observers
observers-le_one key s [] v n = (omega arith, λ h. refl)
observers-le_one key s ((now, c) ∷ cs) v n = elim (Bool-cases (answers key s (now, c))) [
  | inl yes_ ↦ (
    rw yes_ (
        omega (
          arith,
          observers_absent key (step s (now, c)) cs after n.1 (absent-answers key s (now, c) yes_),
        )),
    observers_absent key s ((now, c) ∷ cs) v n,
  )
  | inr no_ ↦ (
    rw no_ (omega (arith, (observers-le_one key (step s (now, c)) cs after n.1).0)),
    observers_absent key s ((now, c) ∷ cs) v n,
  )
]
  where
    after : IsValid (step s (now, c))
    after = step-IsValid s (now, c) v
