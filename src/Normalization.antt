-- ===== src/Normalization.antt =====
-- internal/normalization/normalizer.go. url.Parse and URL.String are parameters.
use source_rudder.Prelude.{
  ◌≡◌, Bool, false, ◌||◌, List, [], ◌∷◌, if◌then◌else◌, Text, bytes, text_eq, trim_suffix,
}
use source_rudder.Types.{Result, ok, err}

-- The parts of a url.URL that the normalization keeps.
pub record UrlParts : Type 0 where
  pub scheme : Text
  pub host : Text
  pub path : Text

pub record UrlLibrary : Type 0 where
  pub parse_parts : Text → Result UrlParts
  pub print_parts : UrlParts → Text

-- Whether a key is among those that were seen.
unfoldable pub seen_before : Text → List Text → Bool
seen_before k [] = false
seen_before k (j ∷ js) = text_eq j k || seen_before k js

-- No text is twice in the list.
abbrev pub NoRepeat : List Text → Type 0
NoRepeat [] = Unit
NoRepeat (t ∷ ts) = (seen_before t ts ≡ false) × NoRepeat ts

module _ (u : UrlLibrary) where
  unfoldable pub normalize_url : Text → Text
  normalize_url raw = elim (u.parse_parts raw) [
    | err e ↦ raw
    | ok parts ↦ u.print_parts (record parts { path = trim_suffix parts.path (bytes "/") })
  ]

  abbrev pub extract_canonical_url : Text → Text
  extract_canonical_url raw = normalize_url raw

  -- The loop of DeduplicateResults.
  unfoldable pub deduplicate_urls : List Text → List Text → List Text
  deduplicate_urls seen [] = []
  deduplicate_urls seen (r ∷ rs) =
      let canonical = extract_canonical_url r in
      if seen_before canonical seen
      then deduplicate_urls seen rs
      else r ∷ deduplicate_urls (canonical ∷ seen) rs
