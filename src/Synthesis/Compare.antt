-- ===== src/Synthesis/Compare.antt =====
-- CompareSources' loop, buildComparisonMap, calculateCompleteness and calculateReliability of
-- internal/synthesis/synthesizer.go. A moment is a number of nanoseconds.
pub mod Recent
use source_rudder.Prelude.{
  ℕ, suc, ◌+◌, Bool, false, ◌&&◌, ◌||◌, not, Option, none, some, List, [], ◌∷◌, map, ◌==◌,
  if◌then◌else◌, ℤ, pos, ◌-ℤ◌, ◌*ℤ◌, ltb_ℤ, Text, bytes, is_empty, insert,
}
use source_rudder.Types.{SearchResultItem}
use source_rudder.Synthesis.{Runtime, SourceInfo, SourceComparison, preview, in_set}

-- published.After(t), for a moment that may be nil.
abbrev pub is_after : ℤ → Option ℤ → Bool
is_after t none = false
is_after t (some p) = ltb_ℤ t p

-- The inner loop over j: some other result was published after the moment t.
unfoldable pub overtaken : ℕ → ℤ → ℕ → List SearchResultItem → Bool
overtaken i t j [] = false
overtaken i t j (r ∷ rs) = (not (i == j) && is_after t r.published_at) || overtaken i t (suc j) rs

unfoldable pub comparison_of : List SearchResultItem → ℕ → SearchResultItem → SourceComparison
comparison_of results i r = record {
  url = r.url;
  title = r.title;
  source = r.source;
  score = r.score;
  published_at = r.published_at;
  is_most_recent = elim (r.published_at) [ none ↦ false | some t ↦ not (overtaken i t 0 results) ];
  snippet_preview = if is_empty r.snippet then [] else preview 100 r.snippet;
}

-- The outer loop, from the index i on.
unfoldable pub compare_from :
    List SearchResultItem → ℕ → List SearchResultItem → List Text → List SourceComparison
compare_from results i [] seen = []
compare_from results i (r ∷ rs) seen =
    if in_set r.url seen
    then compare_from results (suc i) rs seen
    else comparison_of results i r ∷ compare_from results (suc i) rs (r.url ∷ seen)

unfoldable pub calculate_completeness : SearchResultItem → ℕ
calculate_completeness r =
    50
    + ((if is_empty r.title then 0 else 10)
        + ((if is_empty r.snippet then 0 else 20)
            + ((if is_empty r.author then 0 else 10)
                + elim (r.published_at) [ none ↦ 0 | some t ↦ 10 ])))

-- The score of an age.
unfoldable pub recency_of : ℤ → ℕ
recency_of age =
    let hour = pos 3600000000000 in
    if ltb_ℤ age (pos 24 *ℤ hour)
    then 100
    else if ltb_ℤ age (pos 168 *ℤ hour)
    then 80
    else if ltb_ℤ age (pos 720 *ℤ hour)
    then 60
    else 40

module _ (rt : Runtime) where
  unfoldable pub calculate_reliability : Text → ℕ
  calculate_reliability source =
      if in_set (rt.to_lower source)
        (map bytes ("official" ∷ "docs" ∷ "documentation" ∷ "github" ∷ "stackoverflow" ∷ []))
      then 90
      else if in_set (rt.to_lower source) (map bytes ("web" ∷ "news" ∷ "blog" ∷ []))
      then 70
      else 50

  unfoldable pub info_of : ℤ → SearchResultItem → SourceInfo
  info_of now r = record {
    url = r.url;
    title = r.title;
    recency_score = elim (r.published_at) [ none ↦ 50 | some t ↦ recency_of (now -ℤ t) ];
    completeness = calculate_completeness r;
    reliability = calculate_reliability r.source;
  }

  unfoldable pub build_comparison_map :
      ℤ → List SearchResultItem → List (Text × SourceInfo) → List (Text × SourceInfo)
  build_comparison_map now [] m = m
  build_comparison_map now (r ∷ rs) m = build_comparison_map now rs (insert r.url (info_of now r) m)
