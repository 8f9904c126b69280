-- ===== src/Synthesis/Findings.antt =====
-- extractKeyFindings, findConsensusAndDivergences and buildSummary of
-- internal/synthesis/synthesizer.go.
pub mod Bounds
use source_rudder.Prelude.{
  count_at, ℕ, suc, ◌+◌, ◌-◌, ◌/◌, ◌&&◌, List, [], ◌∷◌, ◌++◌, ltb, leb, if◌then◌else◌, length, take,
  Text, bytes, is_empty, join, insert,
}
use source_rudder.Types.{SearchResultItem}
use source_rudder.Synthesis.{Runtime, preview, in_set, format_count}

unfoldable pub build_summary : Text → List Text → Text
build_summary query [] = bytes "Search completed for " ++ (query ++ bytes ".")
build_summary query (s ∷ ss) =
    bytes "Based on "
    ++ (format_count (length (s ∷ ss))
        ++ (bytes " sources, "
            ++ (query ++ (bytes " appears to be related to: " ++ join (s ∷ ss) (bytes " ")))))

-- The two inner loops: how many words of the query, longer than three bytes, occur in the snippet.
unfoldable pub common_words : List Text → List Text → ℕ
common_words [] words = 0
common_words (qw ∷ qws) words =
    (if in_set qw words && ltb 3 (length qw) then 1 else 0) + common_words qws words

-- The fallback to the first snippet.
unfoldable pub fallback_finding : List SearchResultItem → List Text → List Text
fallback_finding [] findings = findings
fallback_finding (r ∷ rs) [] = if is_empty r.snippet then [] else preview 100 r.snippet ∷ []
fallback_finding (r ∷ rs) (f ∷ fs) = f ∷ fs

-- titleWords[w]++ for the words of a title that are longer than three bytes.
unfoldable pub count_words : List Text → List (Text × ℕ) → List (Text × ℕ)
count_words [] m = m
count_words (w ∷ ws) m =
    count_words ws (if ltb 3 (length w) then insert w (suc (count_at w m)) m else m)

-- The words that at least half of the results count.
unfoldable pub frequent : ℕ → List (Text × ℕ) → List Text
frequent n [] = []
frequent n ((word, count) ∷ m) = if leb (n / 2) count then word ∷ frequent n m else frequent n m

module _ (rt : Runtime) where
  -- The loop over the results; `seen` is seenPhrases and `findings` what was appended so far.
  unfoldable pub findings_loop :
      List Text → List SearchResultItem → List Text → List Text → List Text
  findings_loop query_words [] seen findings = findings
  findings_loop query_words (r ∷ rs) seen findings =
      let phrase = preview 100 r.snippet in
      let skip = findings_loop query_words rs seen findings in
      let found = findings ++ phrase ∷ [] in
      let more = findings_loop query_words rs (phrase ∷ seen) found in
      if is_empty r.snippet
      then skip
      else if leb 2 (common_words query_words (rt.fields (rt.to_lower r.snippet)))
          && ltb 20 (length r.snippet)
      then if in_set phrase seen then skip else if leb 5 (length found) then found else more
      else skip

  unfoldable pub extract_key_findings : Text → List SearchResultItem → List Text
  extract_key_findings query results =
      fallback_finding results (findings_loop (rt.fields (rt.to_lower query)) results [] [])

  unfoldable pub title_words : List SearchResultItem → List (Text × ℕ) → List (Text × ℕ)
  title_words [] m = m
  title_words (r ∷ rs) m = title_words rs (count_words (rt.fields (rt.to_lower r.title)) m)

  unfoldable pub find_consensus_and_divergences : List SearchResultItem → Text × List Text
  find_consensus_and_divergences results =
      let common = frequent (length results) (rt.arrange_counts (title_words results [])) in
      if ltb (length results) 2
      then (bytes "Insufficient sources for consensus analysis.", [])
      else if ltb 0 (length common)
      then (bytes "Sources agree on key aspects: " ++ join (take 3 common) (bytes ", "), [])
      else (
        bytes "No clear consensus - sources cover different aspects.",
        bytes "Topics vary across sources" ∷ [],
      )
