-- ===== src/Synthesis/Themes.antt =====
-- groupByTheme, categorizeByTitle, buildThemeSummary and buildDeepSummary of
-- internal/synthesis/synthesizer.go.
pub mod Grouping
use source_rudder.Prelude.{
  Bool, false, ◌&&◌, ◌||◌, none, some, List, [], ◌∷◌, ◌++◌, map, if◌then◌else◌, length, Text, bytes,
  is_empty, contains, join, show_nat, lookup, insert,
}
use source_rudder.Types.{SearchResultItem}
use source_rudder.Synthesis.{Runtime, ThemeResults, preview, format_count}

abbrev pub categories : List (Text × List Text)
categories =
    (
      bytes "Technical Documentation",
      map bytes
          ("docs" ∷ "documentation" ∷ "api" ∷ "reference" ∷ "guide" ∷ "tutorial" ∷ "manual" ∷ []),
    )
    ∷ (
      bytes "Code & Programming",
      map bytes (
          "github" ∷ "code" ∷ "source" ∷ "repository" ∷ "commit" ∷ "pull" ∷ "issue"
          ∷ "stackoverflow" ∷ []),
    )
    ∷ (
      bytes "News & Updates",
      map bytes (
          "news" ∷ "announcement" ∷ "release" ∷ "update" ∷ "version" ∷ "2024" ∷ "2025" ∷ "2026"
          ∷ []),
    )
    ∷ (
      bytes "Packages & Dependencies",
      map bytes
          ("npm" ∷ "pypi" ∷ "nuget" ∷ "docker" ∷ "hub" ∷ "package" ∷ "library" ∷ "framework" ∷ []),
    )
    ∷ (
      bytes "Community & Discussion",
      map bytes ("community" ∷ "forum" ∷ "discussion" ∷ "blog" ∷ "article" ∷ "post" ∷ []),
    )
    ∷ []

unfoldable pub any_keyword : Text → List Text → Bool
any_keyword text [] = false
any_keyword text (kw ∷ kws) = contains text kw || any_keyword text kws

-- The first category, in the order of the loop, one of whose keywords occurs.
unfoldable pub first_category : Text → List (Text × List Text) → Text
first_category text [] = bytes "General"
first_category text ((category, keywords) ∷ m) =
    if any_keyword text keywords then category else first_category text m

unfoldable pub build_theme_summary : List SearchResultItem → Text
build_theme_summary [] = bytes "No items"
build_theme_summary (r ∷ []) = preview 80 r.snippet
build_theme_summary (r ∷ s ∷ rs) = show_nat (length (r ∷ s ∷ rs)) ++ bytes " related results found"

-- themeMap[theme] = append(themeMap[theme], r)
unfoldable pub add_to_theme :
    Text
    → SearchResultItem
    → List (Text × List SearchResultItem)
    → List (Text × List SearchResultItem)
add_to_theme theme r m =
    insert theme (elim (lookup theme m) [ none ↦ r ∷ [] | some items ↦ items ++ r ∷ [] ]) m

abbrev pub theme_of : Text × List SearchResultItem → ThemeResults
theme_of (theme, items) = record {
  theme = theme;
  results = items;
  summary = build_theme_summary items;
}

-- The parts that buildDeepSummary writes for the themes, one space between two of them.
unfoldable pub theme_texts : List ThemeResults → List Text
theme_texts [] = []
theme_texts (t ∷ ts) = (t.theme ++ (bytes ": " ++ t.summary)) ∷ theme_texts ts

unfoldable pub build_deep_summary : Text → List ThemeResults → Text
build_deep_summary query [] = bytes "No themes identified for " ++ query
build_deep_summary query (t ∷ ts) =
    bytes "Research on "
    ++ (query
        ++ (bytes " identified "
            ++ (format_count (length (t ∷ ts))
                ++ (bytes " main themes. " ++ join (theme_texts (t ∷ ts)) (bytes " ")))))

module _ (rt : Runtime) where
  unfoldable pub categorize_by_title : Text → Text → Text
  categorize_by_title title snippet =
      if is_empty title && is_empty snippet
      then bytes "General"
      else first_category (rt.to_lower (title ++ (bytes " " ++ snippet)))
          (rt.arrange_categories categories)

  -- The loop that fills themeMap.
  unfoldable pub fill_themes :
      List SearchResultItem
      → List (Text × List SearchResultItem)
      → List (Text × List SearchResultItem)
  fill_themes [] m = m
  fill_themes (r ∷ rs) m = fill_themes rs (add_to_theme (categorize_by_title r.title r.snippet) r m)

  unfoldable pub group_by_theme : List SearchResultItem → List ThemeResults
  group_by_theme results =
      rt.sort_themes (map theme_of (rt.arrange_themes (fill_themes results [])))
