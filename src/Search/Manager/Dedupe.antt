-- ===== src/Search/Manager/Dedupe.antt =====
-- What deduplicateResults keeps: of the results with the same canonical URL, the first.
use source_rudder.Prelude.{
  ◌≡◌, refl, inl, inr, true, false, ◌||◌, List, [], ◌∷◌, map, arith, Bool-cases, Text, text_eq_iff,
  text_eq_self,
}
use source_rudder.Types.{SearchResultItem}
use source_rudder.Normalization.{UrlLibrary, seen_before, extract_canonical_url}
use source_rudder.Search.Manager.{deduplicate_from, deduplicate_results}

module _ (u : UrlLibrary) where
  abbrev pub canonical_of : SearchResultItem → Text
  canonical_of r = extract_canonical_url u r.url

  -- The canonical URL of every result is recorded in it, and is that of no other.
  abbrev pub Distinct : List SearchResultItem → Type 0
  Distinct [] = Unit
  Distinct (r ∷ rs) =
      (r.canonical_url ≡ canonical_of r)
      × (seen_before (canonical_of r) (map canonical_of rs) ≡ false)
      × Distinct rs

  -- No canonical URL that was seen is among those of the results.
  avoids :
      (k : Text) (seen : List Text) (rs : List SearchResultItem)
      → seen_before k seen ≡ true
      → seen_before k (map canonical_of (deduplicate_from u seen rs)) ≡ false
  unfolding deduplicate_from seen_before
  avoids k seen [] h = refl
  avoids k seen (r ∷ rs) h = elim (Bool-cases (seen_before (canonical_of r) seen)) [
    | inl e ↦ rw e (avoids k seen rs h)
    | inr e ↦
        rw e (
          ground (arith, text_eq_iff (canonical_of r) k, avoids k (canonical_of r ∷ seen) rs, e, h))
  ]

  deduplicate_from-Distinct :
      (seen : List Text) (rs : List SearchResultItem) → Distinct (deduplicate_from u seen rs)
  unfolding deduplicate_from seen_before
  deduplicate_from-Distinct seen [] = tt
  deduplicate_from-Distinct seen (r ∷ rs) = elim (Bool-cases (seen_before (canonical_of r) seen)) [
    | inl e ↦ rw e (deduplicate_from-Distinct seen rs)
    | inr e ↦ rw e (
      refl,
      avoids (canonical_of r) (canonical_of r ∷ seen) rs
          (ground (arith, text_eq_self (canonical_of r))),
      deduplicate_from-Distinct (canonical_of r ∷ seen) rs,
    )
  ]

  covered :
      (k : Text) (seen : List Text) (rs : List SearchResultItem)
      → (seen_before k seen || seen_before k (map canonical_of (deduplicate_from u seen rs)))
        ≡ (seen_before k seen || seen_before k (map canonical_of rs))
  unfolding deduplicate_from seen_before
  covered k seen [] = refl
  covered k seen (r ∷ rs) = elim (Bool-cases (seen_before (canonical_of r) seen)) [
    | inl e ↦ rw e (ground (arith, text_eq_iff (canonical_of r) k, covered k seen rs, e))
    | inr e ↦ rw e (ground (arith, covered k (canonical_of r ∷ seen) rs))
  ]

  -- Of the results that deduplicateResults returns no two have the same canonical URL, each
  -- carries its own, and the canonical URLs of the input are exactly those of the output.
  pub deduplicate_results_lem :
      (rs : List SearchResultItem)
      → Distinct (deduplicate_results u rs)
        × ((k : Text)
            → seen_before k (map canonical_of (deduplicate_results u rs))
              ≡ seen_before k (map canonical_of rs))
  unfolding deduplicate_results seen_before
  deduplicate_results_lem rs = (deduplicate_from-Distinct [] rs, λ k. covered k [] rs)
