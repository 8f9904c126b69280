-- ===== src/Cache.antt =====
-- internal/cache/cache.go: the Service. A method that holds s.mu throughout is one function; the
-- moment of each time.Now() is an argument. Get releases the read lock before it takes the write
-- lock, so its two locked parts are also functions of their own, `read` and `sweep`.
pub mod View
pub mod Contract
pub mod Race
pub mod Deletes
mod Tests
use source_rudder.Prelude.{
  Bool, true, false, ◌&&◌, Option, none, some, List, [], ◌∷◌, map, if◌then◌else◌, Slice, ℤ, pos,
  ◌+ℤ◌, ◌*ℤ◌, ltb_ℤ, Text, lookup, insert,
}
use source_rudder.Types.{CacheEntry}
use source_rudder.Prelude

pub record Entry : Type 0 where
  pub key : Text
  pub value : Text
  pub created : ℤ
  pub expires : ℤ
  pub sources : Slice Text

pub record Service : Type 0 where
  pub entries : List (Text × Entry)
  pub ttl : ℤ

-- time.Second, in nanoseconds.
abbrev pub second : ℤ
second = pos 1000000000

unfoldable pub new_service : ℤ → Service
new_service ttl_seconds = record { entries = []; ttl = ttl_seconds *ℤ second }

-- now.Before(item.expires)
abbrev pub is_live : ℤ → Entry → Bool
is_live now e = ltb_ℤ now e.expires

-- deleteExpiredLocked
unfoldable pub delete_expired : ℤ → List (Text × Entry) → List (Text × Entry)
delete_expired now [] = []
delete_expired now ((k, e) ∷ m) =
    if is_live now e then (k, e) ∷ delete_expired now m else delete_expired now m

unfoldable pub sweep : Service → ℤ → Service
sweep s now = record s { entries = delete_expired now s.entries }

pub data Found : Type 0 where
  missing expired : Found
  hit : CacheEntry → Found

abbrev pub entry_view : Entry → CacheEntry
entry_view e = record {
  cache_key = e.key;
  created_at = e.created;
  expires_at = e.expires;
  payload = e.value;
  source_set = e.sources;
}

-- What Get does under the read lock.
unfoldable pub read : Service → Text → ℤ → Found
read s key now = elim (lookup key s.entries) [
  | none ↦ missing
  | some e ↦ if is_live now e then hit (entry_view e) else expired
]

-- `later` is the second time.Now(), under the write lock.
unfoldable pub get : Service → Text → ℤ → ℤ → Service × Option CacheEntry
unfolding read sweep
get s key now later = elim (read s key now) [
  | missing ↦ (s, none)
  | expired ↦ (sweep s later, none)
  | hit c ↦ (s, some c)
]

-- The lifetime of an entry: the configured one, cut down to a positive cap.
unfoldable pub effective_ttl : Service → ℤ → ℤ
effective_ttl s max_ttl = if ltb_ℤ (pos 0) max_ttl && ltb_ℤ max_ttl s.ttl then max_ttl else s.ttl

unfoldable pub set_with_max_ttl : Service → Text → Text → Slice Text → ℤ → ℤ → Service
unfolding sweep effective_ttl
set_with_max_ttl s key payload sources max_ttl now = record s {
  entries = insert key entry (delete_expired now s.entries);
}
  where
    entry : Entry
    entry = record {
      key = key;
      value = payload;
      created = now;
      expires = now +ℤ effective_ttl s max_ttl;
      sources = sources;
    }

unfoldable pub set : Service → Text → Text → Slice Text → ℤ → Service
unfolding set_with_max_ttl
set s key payload sources now = set_with_max_ttl s key payload sources (pos 0) now

unfoldable pub delete : Service → Text → Service
delete s key = record s { entries = Prelude.delete key s.entries }

unfoldable pub delete_if_present : Service → Text → Service × Bool
delete_if_present s key = elim (lookup key s.entries) [
  | none ↦ (s, false)
  | some e ↦ (record s { entries = Prelude.delete key s.entries }, true)
]

unfoldable pub clear : Service → Service
clear s = record s { entries = [] }

abbrev pub names : List (Text × Entry) → List Text
names = map λ e. e.0

unfoldable pub keys : Service → ℤ → Service × List Text
unfolding sweep
keys s now = (sweep s now, names (sweep s now).entries)
