-- ===== src/Synthesis.antt =====
-- internal/synthesis/synthesizer.go. A score between 0 and 1 is kept in hundredths. The functions of
-- the package strings that read Unicode tables, the order in which a range loop visits a map, and
-- sort.Slice are parameters.
pub mod Findings
pub mod Themes
pub mod Compare
pub mod Service
mod Tests
use source_rudder.Prelude.{
  ℕ, Bool, false, ◌||◌, Option, List, [], ◌∷◌, ◌++◌, ltb, ◌==◌, if◌then◌else◌, length, take, Slice,
  ℤ, Text, bytes, text_eq, show_nat,
}
use source_rudder.Types.{SearchResultItem}

pub record SynthesisResult : Type 0 where
  pub summary : Text
  pub key_findings : List Text
  pub citations : List Text
  pub confidence : ℕ

pub record ThemeResults : Type 0 where
  pub theme : Text
  pub results : List SearchResultItem
  pub summary : Text

pub record SourceInfo : Type 0 where
  pub url : Text
  pub title : Text
  pub recency_score : ℕ
  pub completeness : ℕ
  pub reliability : ℕ

pub record DeepResearchResult : Type 0 where
  pub summary : Text
  pub themes : List ThemeResults
  pub key_findings : List Text
  pub comparison : List (Text × SourceInfo)
  pub confidence : ℕ

pub record SourceComparison : Type 0 where
  pub url : Text
  pub title : Text
  pub source : Text
  pub score : ℤ
  pub published_at : Option ℤ
  pub is_most_recent : Bool
  pub snippet_preview : Text

pub record CompareResult : Type 0 where
  pub sources : List SourceComparison
  pub consensus : Text
  pub divergences : List Text

pub record Runtime : Type 0 where
  -- strings.ToLower and strings.Fields.
  pub to_lower : Text → Text
  pub fields : Text → List Text
  -- The orders of the range loops over themeMap, categories and titleWords.
  pub arrange_themes : List (Text × List SearchResultItem) → List (Text × List SearchResultItem)
  pub arrange_categories : List (Text × List Text) → List (Text × List Text)
  pub arrange_counts : List (Text × ℕ) → List (Text × ℕ)
  -- sort.Slice by falling number of results.
  pub sort_themes : List ThemeResults → List ThemeResults

unfoldable pub calculate_confidence : ℕ → ℕ
calculate_confidence count =
    if count == 0
    then 0
    else if ltb 5 count
    then 90
    else if ltb 3 count
    then 75
    else if ltb 1 count
    then 50
    else 30

unfoldable pub format_count : ℕ → Text
format_count n =
    if n == 0
    then bytes "no"
    else if n == 1
    then bytes "1"
    else if n == 2
    then bytes "2"
    else if n == 3
    then bytes "3"
    else show_nat n

-- A text cut down to n bytes, with an ellipsis if it was longer.
unfoldable pub preview : ℕ → Text → Text
preview n s = if ltb n (length s) then take n s ++ bytes "..." else s

-- A key of a Go map[string]bool that is used as a set.
unfoldable pub in_set : Text → List Text → Bool
in_set k [] = false
in_set k (j ∷ js) = text_eq j k || in_set k js
