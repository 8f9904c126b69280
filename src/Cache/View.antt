-- ===== src/Cache/View.antt =====
-- What a client of the cache can observe: the entries that have not expired.
use source_rudder.Prelude.{
  ◌≡◌, refl, inl, inr, false, Option, none, some, List, [], ◌∷◌, map, arith, if◌then◌else◌,
  Bool-cases, All, Slice, ℤ, ◌≤ℤ◌, Text, text_eq_iff, lookup, insert, lookup-insert, lookup-delete,
  All-insert, All-delete,
}
use source_rudder.Prelude
use source_rudder.Cache.{Entry, Service, is_live, delete_expired, sweep, set_with_max_ttl, delete}

abbrev pub live_only : ℤ → Option Entry → Option Entry
live_only t none = none
live_only t (some e) = if is_live t e then some e else none

-- The entry that a reader at the moment t is shown.
abbrev pub view : Service → ℤ → Text → Option Entry
view s t key = live_only t (lookup key s.entries)

-- No key twice, as in a Go map.
abbrev pub Distinct : List (Text × Entry) → Type 0
Distinct [] = Unit
Distinct ((k, e) ∷ m) = (lookup k m ≡ none) × Distinct m

pub record IsValid (s : Service) : Type 0 where
  pub distinct : Distinct s.entries
  pub keyed : All (λ p. p.1.key ≡ p.0) s.entries

is_live_mono : (t u : ℤ) (e : Entry) → t ≤ℤ u → is_live t e ≡ false → is_live u e ≡ false
is_live_mono t u e h d = ground arith

-- At a later moment, what was filtered before is filtered all the same.
pub live_only-live_only :
    (t u : ℤ) (o : Option Entry) → t ≤ℤ u → live_only u (live_only t o) ≡ live_only u o
live_only-live_only t u none h = refl
live_only-live_only t u (some e) h = ground (arith, is_live_mono t u e)

pub lookup-delete_expired :
    (t : ℤ) (j : Text) (m : List (Text × Entry))
    → Distinct m
    → lookup j (delete_expired t m) ≡ live_only t (lookup j m)
unfolding lookup delete_expired
lookup-delete_expired t j [] d = refl
lookup-delete_expired t j ((k, e) ∷ m) d =
    ground (arith, text_eq_iff k j, lookup-delete_expired t j m d.1, d.0)

Distinct-delete_expired :
    (t : ℤ) (m : List (Text × Entry)) → Distinct m → Distinct (delete_expired t m)
unfolding delete_expired
Distinct-delete_expired t [] d = tt
Distinct-delete_expired t ((k, e) ∷ m) d =
    ground (arith, lookup-delete_expired t k m d.1, d.0, Distinct-delete_expired t m d.1)

Distinct-insert :
    (k : Text) (e : Entry) (m : List (Text × Entry)) → Distinct m → Distinct (insert k e m)
unfolding insert lookup
Distinct-insert k e [] d = (refl, tt)
Distinct-insert k e ((j, w) ∷ m) d =
    ground (
      arith,
      text_eq_iff j k,
      lookup-insert j k e m,
      text_eq_iff k j,
      d.0,
      Distinct-insert k e m d.1,
    )

Distinct-delete : (k : Text) (m : List (Text × Entry)) → Distinct m → Distinct (Prelude.delete k m)
unfolding Prelude.delete
Distinct-delete k [] d = tt
Distinct-delete k ((j, w) ∷ m) d = ground (arith, lookup-delete j k m, d.0, Distinct-delete k m d.1)

All-delete_expired {κ} :
    (P : Text × Entry → Type κ) (t : ℤ) (m : List (Text × Entry))
    → All P m
    → All P (delete_expired t m)
unfolding delete_expired
All-delete_expired P t [] h = tt
All-delete_expired P t ((k, e) ∷ m) h = elim (Bool-cases (is_live t e)) [
  | inl live ↦ rw live (h.0, All-delete_expired P t m h.1)
  | inr dead ↦ rw dead (All-delete_expired P t m h.1)
]

pub sweep-IsValid : (s : Service) (t : ℤ) → IsValid s → IsValid (sweep s t)
unfolding sweep
sweep-IsValid s t v = record {
  distinct = Distinct-delete_expired t s.entries v.distinct;
  keyed = All-delete_expired _ t s.entries v.keyed;
}

pub view-sweep :
    (s : Service) (now t : ℤ) (j : Text)
    → IsValid s
    → now ≤ℤ t
    → view (sweep s now) t j ≡ view s t j
unfolding sweep
view-sweep s now t j v h =
    rw (lookup-delete_expired now j s.entries v.distinct)
      (live_only-live_only now t (lookup j s.entries) h)

pub set_with_max_ttl-IsValid :
    (s : Service) (key payload : Text) (sources : Slice Text) (max_ttl now : ℤ)
    → IsValid s
    → IsValid (set_with_max_ttl s key payload sources max_ttl now)
unfolding set_with_max_ttl
set_with_max_ttl-IsValid s key payload sources max_ttl now v = record {
  distinct = Distinct-insert key _ _ (Distinct-delete_expired now s.entries v.distinct);
  keyed = All-insert _ key _ _ refl (All-delete_expired _ now s.entries v.keyed);
}

pub delete-IsValid : (s : Service) (key : Text) → IsValid s → IsValid (delete s key)
unfolding delete
delete-IsValid s key v = record {
  distinct = Distinct-delete key s.entries v.distinct;
  keyed = All-delete _ key s.entries v.keyed;
}
