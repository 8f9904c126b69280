-- ===== src/Connectors/Api/PyPi.antt =====
-- internal/connectors/pypi.go: what is looked up and what is made of the answers. A score is kept in
-- tenths here, and a response is left out: its items are these. The regular expression and
-- strings.ToLower are parameters.
use source_rudder.Prelude.{
  ℕ, suc, ◌≡◌, refl, Option, none, some, List, [], ◌∷◌, ◌++◌, arith, ltb, leb, ◌==◌, if◌then◌else◌,
  length, Slice, ℤ, pos, leb_ℤ, Text, bytes, is_empty, has_prefix, show_nat,
}
use source_rudder.Normalization.{seen_before}
use source_rudder.Types.{Failure, plain_error, Result, ok, err}
use source_rudder.Connectors.Api.{ApiAnswer, unbuilt, failed, replied}

pub record PyPiItem : Type 0 where
  pub title : Text
  pub url : Text
  pub snippet : Text
  pub score_tenths : ℕ
  pub citation_id : Text

pub record PyPiInfo : Type 0 where
  pub name : Text
  pub summary : Text
  pub version : Text
  pub home_page : Text
  pub project_url : Text
  pub package_url : Text

pub record PyPiEnvironment : Type 0 where
  pub to_lower : Text → Text
  -- The requests of tryExactMatch and of searchByPrefix, for a name.
  pub ask_exact : Text → ApiAnswer PyPiInfo
  pub ask_prefix : Text → ApiAnswer Text
  -- The names that the regular expression finds in a page.
  pub project_names : Text → List Text

unfoldable pub exact_item : PyPiInfo → PyPiItem
exact_item info = record {
  title = info.name ++ (bytes " (" ++ (info.version ++ bytes ")"));
  url =
      if is_empty info.home_page
      then if is_empty info.project_url then info.package_url else info.project_url
      else info.home_page;
  snippet = info.summary;
  score_tenths = 10;
  citation_id = bytes "pypi:" ++ info.name;
}

unfoldable pub prefix_item : Text → PyPiItem
prefix_item name = record {
  title = name;
  url = bytes "https://pypi.org/project/" ++ name;
  snippet = [];
  score_tenths = 8;
  citation_id = bytes "pypi:" ++ name;
}

module _ (env : PyPiEnvironment) where
  unfoldable pub try_exact_match : Text → Result PyPiItem
  try_exact_match name = elim (env.ask_exact name) [
    | unbuilt e ↦ err e
    | failed e ↦ err e
    | replied status body ↦
        if status == 404
        then err (plain_error (bytes "package not found"))
        else if leb 400 status
        then err (plain_error (bytes "API error: " ++ show_nat status))
        else elim body [ err e ↦ err e | ok info ↦ ok (exact_item info) ]
  ]

  -- The loop over the matches, when `found` results are there and the names `seen` were met.
  unfoldable pub simple_items : ℤ → Text → ℕ → List Text → List Text → List PyPiItem
  simple_items max_results query found seen [] = []
  simple_items max_results query found seen (name ∷ names) =
      if leb_ℤ max_results (pos found)
      then []
      else if seen_before name seen
      then simple_items max_results query found seen names
      else if has_prefix (env.to_lower name) (env.to_lower query)
      then prefix_item name ∷ simple_items max_results query (suc found) (name ∷ seen) names
      else simple_items max_results query found (name ∷ seen) names

  unfoldable pub parse_simple_index : Text → Text → ℤ → List PyPiItem
  parse_simple_index html query max_results =
      simple_items max_results query 0 [] (env.project_names html)

  unfoldable pub search_by_prefix : Text → ℤ → Result (List PyPiItem)
  search_by_prefix query max_results = elim (env.ask_prefix query) [
    | unbuilt e ↦ err e
    | failed e ↦ err e
    | replied status body ↦
        if leb 400 status
        then err (plain_error (bytes "prefix search failed: " ++ show_nat status))
        else elim body [ err e ↦ err e | ok html ↦ ok (parse_simple_index html query max_results) ]
  ]

  -- searchPyPI, with the error that it returns.
  unfoldable pub search_py_pi : Text → ℤ → List PyPiItem × Option Failure
  search_py_pi query max_results = elim (try_exact_match query) [
    | ok item ↦ (item ∷ [], none)
    | err _ ↦ elim (search_by_prefix query max_results) [
      | err _ ↦ ([], none)
      | ok items ↦ if ltb 0 (length items) then (items, none) else ([], none)
    ]
  ]

  -- The warnings that Search sets.
  unfoldable pub py_pi_warnings : List PyPiItem × Option Failure → Slice Text
  py_pi_warnings (items, none) = none
  py_pi_warnings (items, some e) = if length items == 0 then some (e.message ∷ []) else none

search_py_pi-error :
    (env : PyPiEnvironment) (query : Text) (max_results : ℤ)
    → (search_py_pi env query max_results).1 ≡ none
unfolding search_py_pi
search_py_pi-error env query max_results = ground arith

py_pi_warnings-none :
    (env : PyPiEnvironment) (found : List PyPiItem × Option Failure)
    → found.1 ≡ none
    → py_pi_warnings env found ≡ none
unfolding py_pi_warnings
py_pi_warnings-none env (items, none) h = refl
py_pi_warnings-none env (items, some e) h = cc

-- searchPyPI returns no error, whatever becomes of its requests, so Search sets no warning.
pub search_py_pi-warns :
    (env : PyPiEnvironment) (query : Text) (max_results : ℤ)
    → py_pi_warnings env (search_py_pi env query max_results) ≡ none
search_py_pi-warns env query max_results =
    py_pi_warnings-none env (search_py_pi env query max_results)
      (search_py_pi-error env query max_results)
