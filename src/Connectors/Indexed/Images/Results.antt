-- ===== src/Connectors/Indexed/Images/Results.antt =====
-- What the images connector keeps of its candidates, and how many results it has.
use source_rudder.Prelude.{
  ◌≡◌, refl, inl, inr, true, false, ◌||◌, List, [], ◌∷◌, map, arith, Bool-cases, All, Text, text_eq,
  text_eq_iff, text_eq_self,
}
use mathlib.Core.List.{Mem, mem-cons_self, mem-cons_of_mem}
use source_rudder.Normalization.{seen_before, NoRepeat}
use source_rudder.Connectors.Indexed.Images.{
  RankedImageCandidate, insert_candidate, sort_candidates, deduplicate_candidates,
  deduplicate_image_candidates,
}
use source_rudder.Connectors.Indexed.Images.Best.{
  BestOf, All-insert_candidate, deduplicate_image_candidates-BestOf,
}

abbrev pub urls_of : List RankedImageCandidate → List Text
urls_of = map λ c. c.canonical_url

seen-insert :
    (k : Text) (c : RankedImageCandidate) (ds : List RankedImageCandidate)
    → seen_before k (urls_of (insert_candidate c ds))
      ≡ (text_eq c.canonical_url k || seen_before k (urls_of ds))
unfolding insert_candidate seen_before
seen-insert k c [] = refl
seen-insert k c (d ∷ ds) = ground (arith, seen-insert k c ds)

seen-sort :
    (k : Text) (cs : List RankedImageCandidate)
    → seen_before k (urls_of (sort_candidates cs)) ≡ seen_before k (urls_of cs)
unfolding sort_candidates seen_before
seen-sort k [] = refl
seen-sort k (c ∷ cs) = ground (arith, seen-sort k cs, seen-insert k c (sort_candidates cs))

seen-deduplicate :
    (k : Text) (seen : List Text) (cs : List RankedImageCandidate)
    → (seen_before k seen || seen_before k (urls_of (deduplicate_candidates seen cs)))
      ≡ (seen_before k seen || seen_before k (urls_of cs))
unfolding deduplicate_candidates seen_before
seen-deduplicate k seen [] = refl
seen-deduplicate k seen (c ∷ cs) = elim (Bool-cases (seen_before c.canonical_url seen)) [
  | inl e ↦ rw e (ground (arith, text_eq_iff c.canonical_url k, seen-deduplicate k seen cs, e))
  | inr e ↦ rw e (ground (arith, seen-deduplicate k (c.canonical_url ∷ seen) cs))
]

avoids :
    (k : Text) (seen : List Text) (cs : List RankedImageCandidate)
    → seen_before k seen ≡ true
    → seen_before k (urls_of (deduplicate_candidates seen cs)) ≡ false
unfolding deduplicate_candidates seen_before
avoids k seen [] h = refl
avoids k seen (c ∷ cs) h = elim (Bool-cases (seen_before c.canonical_url seen)) [
  | inl e ↦ rw e (avoids k seen cs h)
  | inr e ↦
      rw e
        (ground (arith, text_eq_iff c.canonical_url k, avoids k (c.canonical_url ∷ seen) cs, e, h))
]

deduplicate-NoRepeat :
    (seen : List Text) (cs : List RankedImageCandidate)
    → NoRepeat (urls_of (deduplicate_candidates seen cs))
unfolding deduplicate_candidates seen_before
deduplicate-NoRepeat seen [] = tt
deduplicate-NoRepeat seen (c ∷ cs) = elim (Bool-cases (seen_before c.canonical_url seen)) [
  | inl e ↦ rw e (deduplicate-NoRepeat seen cs)
  | inr e ↦ rw e (
    avoids c.canonical_url (c.canonical_url ∷ seen) cs
        (ground (arith, text_eq_self c.canonical_url)),
    deduplicate-NoRepeat (c.canonical_url ∷ seen) cs,
  )
]

All-sort :
    (P : RankedImageCandidate → Type 0) (cs : List RankedImageCandidate)
    → All P cs
    → All P (sort_candidates cs)
unfolding sort_candidates
All-sort P [] h = tt
All-sort P (c ∷ cs) h = All-insert_candidate P c (sort_candidates cs) h.0 (All-sort P cs h.1)

All-deduplicate :
    (P : RankedImageCandidate → Type 0) (seen : List Text) (cs : List RankedImageCandidate)
    → All P cs
    → All P (deduplicate_candidates seen cs)
unfolding deduplicate_candidates
All-deduplicate P seen [] h = tt
All-deduplicate P seen (c ∷ cs) h = elim (Bool-cases (seen_before c.canonical_url seen)) [
  | inl e ↦ rw e (All-deduplicate P seen cs h.1)
  | inr e ↦ rw e (h.0, All-deduplicate P (c.canonical_url ∷ seen) cs h.1)
]

All-Mem :
    (cs ds : List RankedImageCandidate)
    → ((c : RankedImageCandidate) → Mem c ds → Mem c cs)
    → All (λ c. Mem c cs) ds
All-Mem cs [] h = tt
All-Mem cs (d ∷ ds) h = (h d mem-cons_self, All-Mem cs ds (λ c m. h c (mem-cons_of_mem d m)))

-- One candidate for every image, which is one of those given, and a most relevant one.
pub record OnePerImage (cs ks : List RankedImageCandidate) : Type 0 where
  given : All (λ k. Mem k cs) ks
  best : All (BestOf cs) ks
  distinct : NoRepeat (urls_of ks)
  complete : (k : Text) → seen_before k (urls_of ks) ≡ seen_before k (urls_of cs)

-- Sorting and removing duplicates leaves exactly one candidate for every canonical URL that a
-- candidate has: it is one of the candidates, unchanged, and one of the greatest relevance among
-- those for that URL.
pub deduplicate_image_candidates-OnePerImage :
    (cs : List RankedImageCandidate)
    → OnePerImage cs (deduplicate_image_candidates (sort_candidates cs))
unfolding seen_before
deduplicate_image_candidates-OnePerImage cs = record {
  given =
      All-deduplicate _ [] (sort_candidates cs)
        (All-sort (λ k. Mem k cs) cs (All-Mem cs cs λ c m. m));
  best = deduplicate_image_candidates-BestOf cs;
  distinct = deduplicate-NoRepeat [] (sort_candidates cs);
  complete = λ k. ground (arith, seen-deduplicate k [] (sort_candidates cs), seen-sort k cs);
}
