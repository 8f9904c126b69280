-- ===== src/Cache/Contract.antt =====
-- Get, SetWithMaxTTL and DeleteIfPresent of internal/cache/cache.go, by what a reader is shown.
use source_rudder.Prelude.{
  ◌≡◌, refl, ◌≢◌, ◌↔◌, ◌⊎◌, inl, inr, true, none, some, arith, if◌then◌else◌, Bool-cases,
  Option-cases, Slice, ℤ, pos, ◌+ℤ◌, ◌≤ℤ◌, ◌<ℤ◌, Text, text_eq, lookup, lookup-insert,
  delete_absent,
}
use source_rudder.Cache.{
  Entry, Service, is_live, delete_expired, read, get, set_with_max_ttl, delete, delete_if_present,
  entry_view, effective_ttl,
}
use source_rudder.Cache.View.{live_only, view, IsValid, view-sweep}
use mathlib.Core.Option

-- The entry that SetWithMaxTTL writes, with the shorter of the two lifetimes when a cap is given.
abbrev pub fresh : Service → Text → Text → Slice Text → ℤ → ℤ → Entry
fresh s key payload sources max_ttl now = record {
  key = key;
  value = payload;
  created = now;
  expires = now +ℤ effective_ttl s max_ttl;
  sources = sources;
}

-- On a valid cache, with the second of its two moments not before the first, Get answers with the
-- live entry of the key, as it was last written, and with nothing when the key is absent or its
-- entry has expired; and it changes nothing that a reader from the second moment on is shown.
pub get-view :
    (s : Service) (key : Text) (now later : ℤ)
    → IsValid s
    → now ≤ℤ later
    → ((get s key now later).1 ≡ Option.map entry_view (view s now key))
      × ((t : ℤ) (j : Text) → later ≤ℤ t → view (get s key now later).0 t j ≡ view s t j)
unfolding get read
get-view s key now later v h = elim (Option-cases (lookup key s.entries)) [
  | inl none_there ↦ (rw (none_there, get) refl, λ t j p. rw (none_there, get) refl)
  | inr (e, there) ↦ elim (Bool-cases (is_live now e)) [
    | inl live ↦ (rw (there, get) (rw live refl), λ t j p. rw (there, get) (rw live refl))
    | inr dead ↦ (
      rw (there, get) (rw dead refl),
      λ t j p. rw (there, get) (rw dead (view-sweep s later t j v p)),
    )
  ]
]

-- After a write at `now` every later reader is shown the new entry under its key for as long as it
-- lives, and under every other key what it was shown before.
pub view-set_with_max_ttl :
    (s : Service) (key payload : Text) (sources : Slice Text) (max_ttl now t : ℤ) (j : Text)
    → IsValid s
    → now ≤ℤ t
    → view (set_with_max_ttl s key payload sources max_ttl now) t j ≡ (
        if text_eq key j
        then live_only t (some (fresh s key payload sources max_ttl now))
        else view s t j)
unfolding set_with_max_ttl
view-set_with_max_ttl s key payload sources max_ttl now t j v h =
    rw (lookup-insert j key _ (delete_expired now s.entries)) (elim (Bool-cases (text_eq key j)) [
      | inl same ↦ rw same refl
      | inr other ↦ rw other (view-sweep s now t j v h)
    ])

-- The lifetime of a new entry never exceeds the configured one nor a positive cap, and is one of
-- the two.
pub effective_ttl_le :
    (s : Service) (max_ttl : ℤ)
    → (effective_ttl s max_ttl ≤ℤ s.ttl)
      × (pos 0 <ℤ max_ttl → effective_ttl s max_ttl ≤ℤ max_ttl)
      × ((effective_ttl s max_ttl ≡ s.ttl) ⊎ (effective_ttl s max_ttl ≡ max_ttl))
unfolding effective_ttl
effective_ttl_le s max_ttl = ground arith

-- DeleteIfPresent removes the entry of the key and nothing else, and answers true exactly when the
-- cache had an entry under the key.
pub delete_if_present_lem :
    (s : Service) (key : Text)
    → ((delete_if_present s key).0 ≡ delete s key)
      × (((delete_if_present s key).1 ≡ true) ↔ (lookup key s.entries ≢ none))
unfolding delete_if_present delete
delete_if_present_lem s key = ground (arith, delete_absent key s.entries)
