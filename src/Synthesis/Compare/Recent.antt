-- ===== src/Synthesis/Compare/Recent.antt =====
-- Which of the compared sources CompareSources marks as the most recent ones.
use source_rudder.Prelude.{
  ℕ, suc, ◌+◌, ◌≡◌, refl, sym, ap, ◌∙◌, ◌↔◌, inl, inr, true, false, none, some, List, [], ◌∷◌,
  arith, Bool-cases, Option-cases, get_elem?, All, ℤ, Text,
}
use source_rudder.Types.{SearchResultItem}
use source_rudder.Synthesis.Service.{compare_sources}
use source_rudder.Synthesis.{Runtime, in_set, SourceComparison}
use source_rudder.Synthesis.Compare.{compare_from, comparison_of, is_after, overtaken}

-- No result was published after the moment t.
abbrev pub NoLater : ℤ → List SearchResultItem → Type 0
NoLater t = All λ r. is_after t r.published_at ≡ false

-- A source is marked exactly if it has a date and no result has a later one.
abbrev pub Marked : List SearchResultItem → SourceComparison → Type 0
Marked results c =
    (c.is_most_recent ≡ true) ↔ ((t : ℤ) × (c.published_at ≡ some t) × NoLater t results)

irreflexive : (t : ℤ) → is_after t (some t) ≡ false
irreflexive t = ground arith

overtaken-NoLater :
    (i : ℕ) (t : ℤ) (j : ℕ) (rs : List SearchResultItem)
    → ((k : ℕ) (r : SearchResultItem)
        → get_elem? rs k ≡ some r
        → i ≡ j + k
        → r.published_at ≡ some t)
    → (overtaken i t j rs ≡ false) ↔ NoLater t rs
unfolding overtaken
overtaken-NoLater i t j [] h = (λ _. tt, λ _. refl)
overtaken-NoLater i t j (r ∷ rs) h = ground (
  arith,
  overtaken-NoLater i t (suc j) rs (λ k x g e. h (suc k) x g (omega (arith, e))),
  h 0 r refl,
  irreflexive t,
)

some_inj : (u v : ℤ) → some u ≡ some v → u ≡ v
some_inj u v h = ground (arith, h)

some_published :
    (x r : SearchResultItem) (t : ℤ)
    → some x ≡ some r
    → r.published_at ≡ some t
    → x.published_at ≡ some t
some_published x r t h e = ground (arith, h, e)

undated :
    (results : List SearchResultItem) (i : ℕ) (r : SearchResultItem)
    → r.published_at ≡ none
    → Marked results (comparison_of results i r)
unfolding comparison_of
undated results i r e = rw e (λ h. absurd (ground (arith, h)), λ h. absurd (ground (arith, h.1)))

dated :
    (results : List SearchResultItem) (i : ℕ) (r : SearchResultItem) (t : ℤ)
    → get_elem? results i ≡ some r
    → r.published_at ≡ some t
    → Marked results (comparison_of results i r)
unfolding comparison_of
dated results i r t g e =
    rw e (
      λ h. (t, refl, o.0 (ground (arith, h))),
      λ h. ground (arith, o.1 (same_moment t h.0 h.1 h.2)),
    )
  where
    own :
        (k : ℕ) (x : SearchResultItem)
        → get_elem? results k ≡ some x
        → i ≡ 0 + k
        → x.published_at ≡ some t
    own k x f d =
        let at : get_elem? results k ≡ get_elem? results i =
          ap (get_elem? results) (omega (arith, d)) in
        some_published x r t (sym f ∙ (at ∙ g)) e

    o : (overtaken i t 0 results ≡ false) ↔ NoLater t results
    o = overtaken-NoLater i t 0 results own

    same_moment : (u v : ℤ) → some u ≡ some v → NoLater v results → NoLater u results
    same_moment u v h n = rw (some_inj u v h) n

comparison_of-Marked :
    (results : List SearchResultItem) (i : ℕ) (r : SearchResultItem)
    → get_elem? results i ≡ some r
    → Marked results (comparison_of results i r)
comparison_of-Marked results i r g = elim (Option-cases (r.published_at)) [
  | inl e ↦ undated results i r e
  | inr (t, e) ↦ dated results i r t g e
]

compare_from-Marked :
    (results : List SearchResultItem) (i : ℕ) (rs : List SearchResultItem) (seen : List Text)
    → ((k j : ℕ) → j ≡ i + k → get_elem? results j ≡ get_elem? rs k)
    → All (Marked results) (compare_from results i rs seen)
unfolding compare_from
compare_from-Marked results i [] seen h = tt
compare_from-Marked results i (r ∷ rs) seen h = elim (Bool-cases (in_set r.url seen)) [
  | inl e ↦
      rw e (compare_from-Marked results (suc i) rs seen (λ k j d. h (suc k) j (omega (arith, d))))
  | inr e ↦ rw e (
    comparison_of-Marked results i r (h 0 i (omega arith)),
    compare_from-Marked results (suc i) rs (r.url ∷ seen) (λ k j d. h (suc k) j (omega (arith, d))),
  )
]

-- CompareSources marks a source as most recent exactly if it has a date and no result has a later
-- one.
pub compare_sources-Marked :
    (rt : Runtime) (results : List SearchResultItem)
    → All (Marked results) (compare_sources rt results).sources
unfolding compare_sources
compare_sources-Marked rt [] = tt
compare_sources-Marked rt (r ∷ rs) =
    compare_from-Marked (r ∷ rs) 0 (r ∷ rs) [] (λ k j d. ap (get_elem? (r ∷ rs)) (omega (arith, d)))
