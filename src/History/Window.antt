-- ===== src/History/Window.antt =====
-- The buffer is a window on the whole history: its newest entries, as many as the bound.
use source_rudder.Prelude.{
  ℕ, zero, suc, ◌+◌, ◌-◌, ◌≤◌, ◌<◌, ◌≡◌, refl, sym, ap, ◌∙◌, ◌≢◌, inl, inr, Bool, true, List, [],
  ◌∷◌, arith, ltb, leb, if◌then◌else◌, Bool-cases, length, take, length-take, take_all, select, All,
  All-take, ℤ, pos, pos_part, leb_ℤ, Text, contains,
}
use source_rudder.History.{
  Entry, HistoryService, new_history_service, stamp, trimmed, append, narrowed, list,
}

pub record IsValid (s : HistoryService) : Type 0 where
  pub positive : 0 < s.bound
  pub bounded : length s.entries ≤ s.bound

-- A service of any bound starts valid, a bound that is not positive becoming 100.
pub new_history_service-IsValid : (bound : ℤ) → IsValid (new_history_service bound)
unfolding new_history_service
new_history_service-IsValid bound = ground arith

length-trimmed : (s : HistoryService) → IsValid s → length (trimmed s) + 1 ≤ s.bound
unfolding trimmed
length-trimmed s v = ground (arith, length-take (length s.entries - 1) s.entries)

pub append-IsValid :
    (s : HistoryService) (e : Entry) (now : ℤ) → IsValid s → IsValid (append s e now)
unfolding append
append-IsValid s e now v = record {
  positive = v.positive;
  bounded = omega (arith, length-trimmed s v);
}

-- Every entry that was ever appended, newest first.
abbrev pub all_entries : List Entry → List (Entry × ℤ) → List Entry
all_entries past [] = past
all_entries past ((e, now) ∷ calls) = all_entries (stamp e now ∷ past) calls

pub appended : HistoryService → List (Entry × ℤ) → HistoryService
appended s [] = s
appended s ((e, now) ∷ calls) = appended (append s e now) calls

take-take {ℓ} : {A : Type ℓ} (n : ℕ) (xs : List A) → take n (take (suc n) xs) ≡ take n xs
take-take zero xs = refl
take-take (suc n) [] = refl
take-take (suc n) (x ∷ xs) = ap (◌∷◌ x) (take-take n xs)

length-take-le {ℓ} : {A : Type ℓ} (n : ℕ) (xs : List A) → length (take n xs) ≤ n
length-take-le n xs = omega (arith, length-take n xs)

trimmed-take :
    (s : HistoryService) (n : ℕ) (past : List Entry)
    → s.bound ≡ suc n
    → s.entries ≡ take (suc n) past
    → trimmed s ≡ take n past
unfolding trimmed
trimmed-take s n past b h = elim (Bool-cases (leb s.bound (length s.entries))) [
  | inl full ↦ rw (full, same full) kept
  | inr roomy ↦ rw roomy (sym (take_all n s.entries (ground arith)) ∙ kept)
]
  where
    kept : take n s.entries ≡ take n past
    kept = ap (take n) h ∙ take-take n past

    short : length s.entries ≤ suc n
    short = rw h (length-take-le (suc n) past)

    same : leb s.bound (length s.entries) ≡ true → length s.entries - 1 ≡ n
    same full = ground (arith, short)

appended-window :
    (s : HistoryService) (n : ℕ) (past : List Entry) (calls : List (Entry × ℤ))
    → s.bound ≡ suc n
    → s.entries ≡ take (suc n) past
    → (appended s calls).entries ≡ take (suc n) (all_entries past calls)
unfolding appended append
appended-window s n past [] b h = h
appended-window s n past ((e, now) ∷ calls) b h =
    appended-window (append s e now) n (stamp e now ∷ past) calls b
      (ap (◌∷◌ (stamp e now)) (trimmed-take s n past b h))

-- After any sequence of calls of Append a new service holds the newest entries that were appended,
-- newest first, as many as its bound allows.
pub new_history_service-window :
    (bound : ℤ) (calls : List (Entry × ℤ))
    → (appended (new_history_service bound) calls).entries
      ≡ take (new_history_service bound).bound (all_entries [] calls)
unfolding new_history_service
new_history_service-window bound calls =
    let n = (new_history_service bound).bound - 1 in
    let e : (new_history_service bound).bound ≡ suc n = ground arith in
    appended-window (new_history_service bound) n [] calls e refl
    ∙ ap (λ k. take k (all_entries [] calls)) (sym e)

All-select {ℓ} : {A : Type ℓ} (p : A → Bool) (xs : List A) → All (λ x. p x ≡ true) (select p xs)
All-select p [] = tt
All-select p (x ∷ xs) = elim (Bool-cases (p x)) [
  | inl e ↦ rw e (e, All-select p xs)
  | inr e ↦ rw e (All-select p xs)
]

narrowed_matches :
    (s : HistoryService) (query : Text)
    → query ≢ []
    → All (λ e. contains e.query query ≡ true) (narrowed s query)
unfolding narrowed
narrowed_matches s [] h = absurd (h refl)
narrowed_matches s (c ∷ query) h = All-select _ s.entries

-- How many entries List answers with: all that match when the limit is not positive, and otherwise
-- no more than the limit.
abbrev pub shown : ℤ → ℕ → ℕ
shown limit n =
    if leb_ℤ limit (pos 0) then n else if ltb n (pos_part limit) then n else pos_part limit

-- List answers with a front part of the entries that it chooses from, in their order: with all of
-- them when the limit is not positive, and otherwise with as many as there are up to the limit;
-- and with a query that is not empty, the query of each contains it.
pub list_lem :
    (s : HistoryService) (limit : ℤ) (query : Text)
    → (list s limit query ≡ take (shown limit (length (narrowed s query))) (narrowed s query))
      × (length (list s limit query) ≡ shown limit (length (narrowed s query)))
      × (query ≢ [] → All (λ e. contains e.query query ≡ true) (list s limit query))
unfolding list
list_lem s limit query =
    (is_take, rw is_take (ground (arith, length-take (shown limit n) src)), matching)
  where
    src : List Entry
    src = narrowed s query

    n : ℕ
    n = length src

    is_take : list s limit query ≡ take (shown limit n) src
    is_take = ground arith

    matching : query ≢ [] → All (λ e. contains e.query query ≡ true) (list s limit query)
    matching h = rw is_take (All-take _ (shown limit n) src (narrowed_matches s query h))
