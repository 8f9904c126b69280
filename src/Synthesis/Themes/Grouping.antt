-- ===== src/Synthesis/Themes/Grouping.antt =====
-- What groupByTheme files under a theme.
use source_rudder.Prelude.{
  ◌≡◌, refl, sym, ap, inl, inr, List, [], ◌∷◌, ◌++◌, arith, if◌then◌else◌, Option-cases, select,
  elems, Text, text_eq, text_eq_iff, lookup, lookup-insert,
}
use source_rudder.Types.{SearchResultItem}
use source_rudder.Synthesis.{Runtime}
use source_rudder.Synthesis.Themes.{add_to_theme, categorize_by_title, fill_themes}

abbrev pub filed : Text → List (Text × List SearchResultItem) → List SearchResultItem
filed theme m = elems (lookup theme m)

-- The results of the given theme, in order.
abbrev pub of_theme : Runtime → Text → List SearchResultItem → List SearchResultItem
of_theme rt theme = select λ r. text_eq (categorize_by_title rt r.title r.snippet) theme

append_assoc {ℓ} : {A : Type ℓ} (xs ys zs : List A) → (xs ++ ys) ++ zs ≡ xs ++ (ys ++ zs)
append_assoc [] ys zs = refl
append_assoc (x ∷ xs) ys zs = ap (◌∷◌ x) (append_assoc xs ys zs)

append_nil {ℓ} : {A : Type ℓ} (xs : List A) → xs ++ [] ≡ xs
append_nil [] = refl
append_nil (x ∷ xs) = ap (◌∷◌ x) (append_nil xs)

filed-add_to_theme :
    (theme k : Text) (r : SearchResultItem) (m : List (Text × List SearchResultItem))
    → filed theme (add_to_theme k r m)
      ≡ (if text_eq k theme then filed theme m ++ r ∷ [] else filed theme m)
unfolding add_to_theme
filed-add_to_theme theme k r m = elim (Option-cases (lookup k m)) [
  | inl e ↦ rw e (ground (arith, text_eq_iff k theme, lookup-insert theme k (r ∷ []) m, e))
  | inr (items, e) ↦
      rw e (ground (arith, text_eq_iff k theme, lookup-insert theme k (items ++ r ∷ []) m, e))
]

filed-fill_themes :
    (rt : Runtime) (theme : Text) (rs : List SearchResultItem)
    (m : List (Text × List SearchResultItem))
    → filed theme (fill_themes rt rs m) ≡ filed theme m ++ of_theme rt theme rs
unfolding fill_themes
filed-fill_themes rt theme [] m = sym (append_nil (filed theme m))
filed-fill_themes rt theme (r ∷ rs) m =
    let k = categorize_by_title rt r.title r.snippet in
    ground (
      arith,
      filed-fill_themes rt theme rs (add_to_theme k r m),
      filed-add_to_theme theme k r m,
      append_assoc (filed theme m) (r ∷ []) (of_theme rt theme rs),
    )

-- The map that groupByTheme fills files under a theme the results that are categorized so, in the
-- order of the results, and nothing else.
pub fill_themes_lem :
    (rt : Runtime) (theme : Text) (rs : List SearchResultItem)
    → filed theme (fill_themes rt rs []) ≡ of_theme rt theme rs
unfolding lookup
fill_themes_lem rt theme rs = filed-fill_themes rt theme rs []
