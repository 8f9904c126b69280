-- ===== src/Synthesis/Service.antt =====
-- The methods of the Service of internal/synthesis/synthesizer.go. None of them returns an error.
use source_rudder.Prelude.{List, [], ◌∷◌, if◌then◌else◌, length, take, ℤ, Text, bytes, is_empty}
use source_rudder.Types.{SearchResultItem}
use source_rudder.Synthesis.{
  Runtime, SynthesisResult, DeepResearchResult, CompareResult, calculate_confidence,
}
use source_rudder.Synthesis.Findings.{
  build_summary, extract_key_findings, find_consensus_and_divergences,
}
use source_rudder.Synthesis.Themes.{group_by_theme, build_deep_summary}
use source_rudder.Synthesis.Compare.{build_comparison_map, compare_from}

unfoldable pub citation_ids : List SearchResultItem → List Text
citation_ids [] = []
citation_ids (r ∷ rs) = (if is_empty r.citation_id then r.url else r.citation_id) ∷ citation_ids rs

-- The snippets that are not empty.
unfoldable pub summary_parts : List SearchResultItem → List Text
summary_parts [] = []
summary_parts (r ∷ rs) =
    if is_empty r.snippet then summary_parts rs else r.snippet ∷ summary_parts rs

module _ (rt : Runtime) where
  unfoldable pub summarize : Text → List SearchResultItem → SynthesisResult
  summarize query [] = record {
    summary = bytes "No results to synthesize.";
    key_findings = [];
    citations = [];
    confidence = 0;
  }
  summarize query (r ∷ rs) =
      let results = r ∷ rs in
      record {
        summary = build_summary query (summary_parts (take 3 results));
        key_findings = extract_key_findings rt query results;
        citations = citation_ids results;
        confidence = calculate_confidence (length results);
      }

  -- `now` is the moment of time.Since.
  unfoldable pub deep_research : ℤ → Text → List SearchResultItem → DeepResearchResult
  deep_research now query [] = record {
    summary = bytes "No results for deep research.";
    themes = [];
    key_findings = [];
    comparison = [];
    confidence = 0;
  }
  deep_research now query (r ∷ rs) =
      let results = r ∷ rs in
      let themes = group_by_theme rt results in
      record {
        summary = build_deep_summary query themes;
        themes = themes;
        key_findings = extract_key_findings rt query results;
        comparison = build_comparison_map rt now results [];
        confidence = calculate_confidence (length results);
      }

  unfoldable pub compare_sources : List SearchResultItem → CompareResult
  compare_sources [] = record {
    sources = [];
    consensus = bytes "No sources to compare.";
    divergences = [];
  }
  compare_sources (r ∷ rs) =
      let results = r ∷ rs in
      let (consensus, divergences) = find_consensus_and_divergences rt results in
      record {
        sources = compare_from results 0 results [];
        consensus = consensus;
        divergences = divergences;
      }
