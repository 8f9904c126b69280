-- ===== src/Connectors/Indexed/Images/Best.antt =====
-- Which of the candidates for the same image is kept: the most relevant one.
use source_rudder.Prelude.{
  ℕ, ◌≤◌, ◌≡◌, ◌⊎◌, inl, inr, true, false, List, [], ◌∷◌, arith, leb, leb→le, Bool-cases, All, Text,
  text_eq, text_eq_iff,
}
use source_rudder.Normalization.{seen_before}
use source_rudder.Connectors.Indexed.Images.{
  RankedImageCandidate, insert_candidate, sort_candidates, deduplicate_candidates,
  deduplicate_image_candidates,
}

-- The relevance never rises.
abbrev Falling : List RankedImageCandidate → Type 0
Falling [] = Unit
Falling (c ∷ cs) = All (λ d. d.relevance ≤ c.relevance) cs × Falling cs

pub All-insert_candidate :
    (P : RankedImageCandidate → Type 0) (c : RankedImageCandidate) (ds : List RankedImageCandidate)
    → P c
    → All P ds
    → All P (insert_candidate c ds)
unfolding insert_candidate
All-insert_candidate P c [] p h = (p, tt)
All-insert_candidate P c (d ∷ ds) p h = elim (Bool-cases (leb d.relevance c.relevance)) [
  | inl e ↦ rw e (p, h)
  | inr e ↦ rw e (h.0, All-insert_candidate P c ds p h.1)
]

All-of-insert :
    (P : RankedImageCandidate → Type 0) (c : RankedImageCandidate) (ds : List RankedImageCandidate)
    → All P (insert_candidate c ds)
    → P c × All P ds
unfolding insert_candidate
All-of-insert P c [] h = h
All-of-insert P c (d ∷ ds) h = elim (Bool-cases (leb d.relevance c.relevance)) [
  | inl e ↦ rw e at h
  | inr e ↦
      let split = rw e at h in let (p, ps) = All-of-insert P c ds split.1 in (p, (split.0, ps))
]

All-of-sort :
    (P : RankedImageCandidate → Type 0) (cs : List RankedImageCandidate)
    → All P (sort_candidates cs)
    → All P cs
unfolding sort_candidates
All-of-sort P [] h = tt
All-of-sort P (c ∷ cs) h =
    let (p, ps) = All-of-insert P c (sort_candidates cs) h in (p, All-of-sort P cs ps)

All-weaken :
    (b n : ℕ) (cs : List RankedImageCandidate)
    → b ≤ n
    → All (λ d. d.relevance ≤ b) cs
    → All (λ d. d.relevance ≤ n) cs
All-weaken b n [] le h = tt
All-weaken b n (c ∷ cs) le h = (omega (arith, le, h.0), All-weaken b n cs le h.1)

Falling-insert :
    (c : RankedImageCandidate) (ds : List RankedImageCandidate)
    → Falling ds
    → Falling (insert_candidate c ds)
unfolding insert_candidate
Falling-insert c [] h = (tt, tt)
Falling-insert c (d ∷ ds) h = elim (Bool-cases (leb d.relevance c.relevance)) [
  | inl e ↦
      let le : d.relevance ≤ c.relevance = leb→le d.relevance c.relevance e in
      rw e ((le, All-weaken d.relevance c.relevance ds le h.0), h)
  | inr e ↦ rw e (
    All-insert_candidate (λ x. x.relevance ≤ d.relevance) c ds (ground (arith, e)) h.0,
    Falling-insert c ds h.1,
  )
]

sort-Falling : (cs : List RankedImageCandidate) → Falling (sort_candidates cs)
unfolding sort_candidates
sort-Falling [] = tt
sort-Falling (c ∷ cs) = Falling-insert c (sort_candidates cs) (sort-Falling cs)

-- A candidate at least as relevant as each of the list for the same image.
abbrev pub BestOf : List RankedImageCandidate → RankedImageCandidate → Type 0
BestOf cs k =
    All (λ c. (text_eq k.canonical_url c.canonical_url ≡ false) ⊎ (c.relevance ≤ k.relevance)) cs

BestOf-lower :
    (k : RankedImageCandidate) (cs : List RankedImageCandidate)
    → All (λ d. d.relevance ≤ k.relevance) cs
    → BestOf cs k
BestOf-lower k [] h = tt
BestOf-lower k (c ∷ cs) h = (inr h.0, BestOf-lower k cs h.1)

-- What is kept is of no URL seen before, and best.
abbrev Kept : List Text → List RankedImageCandidate → RankedImageCandidate → Type 0
Kept seen cs k = (seen_before k.canonical_url seen ≡ false) × BestOf cs k

Kept-after :
    (c : RankedImageCandidate) (seen : List Text) (cs ks : List RankedImageCandidate)
    → All (Kept (c.canonical_url ∷ seen) cs) ks
    → All (Kept seen (c ∷ cs)) ks
unfolding seen_before
Kept-after c seen cs [] h = tt
Kept-after c seen cs (k ∷ ks) h = (
  (
    ground (arith, h.0.0),
    (
      inl (
          ground (
            arith,
            h.0.0,
            text_eq_iff c.canonical_url k.canonical_url,
            text_eq_iff k.canonical_url c.canonical_url,
          )),
      h.0.1,
    ),
  ),
  Kept-after c seen cs ks h.1,
)

Kept-past :
    (c : RankedImageCandidate) (seen : List Text) (cs ks : List RankedImageCandidate)
    → seen_before c.canonical_url seen ≡ true
    → All (Kept seen cs) ks
    → All (Kept seen (c ∷ cs)) ks
unfolding seen_before
Kept-past c seen cs [] s h = tt
Kept-past c seen cs (k ∷ ks) s h = (
  (h.0.0, (inl (ground (arith, h.0.0, s, text_eq_iff k.canonical_url c.canonical_url)), h.0.1)),
  Kept-past c seen cs ks s h.1,
)

deduplicate-Kept :
    (seen : List Text) (cs : List RankedImageCandidate)
    → Falling cs
    → All (Kept seen cs) (deduplicate_candidates seen cs)
unfolding deduplicate_candidates
deduplicate-Kept seen [] f = tt
deduplicate-Kept seen (c ∷ cs) f = elim (Bool-cases (seen_before c.canonical_url seen)) [
  | inl s ↦ rw s (Kept-past c seen cs _ s (deduplicate-Kept seen cs f.1))
  | inr s ↦ rw s (
    (s, (inr (omega arith), BestOf-lower c cs f.0)),
    Kept-after c seen cs _ (deduplicate-Kept (c.canonical_url ∷ seen) cs f.1),
  )
]

All-best :
    (cs ks : List RankedImageCandidate) → All (Kept [] (sort_candidates cs)) ks → All (BestOf cs) ks
All-best cs [] h = tt
All-best cs (k ∷ ks) h = (All-of-sort _ cs h.0.1, All-best cs ks h.1)

-- Each candidate that is left after sorting and the removal of duplicates is of the greatest
-- relevance among those of the same canonical URL.
pub deduplicate_image_candidates-BestOf :
    (cs : List RankedImageCandidate)
    → All (BestOf cs) (deduplicate_image_candidates (sort_candidates cs))
deduplicate_image_candidates-BestOf cs =
    All-best cs _ (deduplicate-Kept [] (sort_candidates cs) (sort-Falling cs))
