-- ===== src/Fetch/Extractor.antt =====
-- internal/fetch/extractor.go. The package regexp, strings.TrimSpace, JSON and the order in which the
-- map of patterns is visited are parameters; every pattern is the text of the source.
pub mod Data
mod Tests
pub mod Title
use source_rudder.Prelude.{
  ℕ, ◌&&◌, not, Option, none, some, List, [], ◌∷◌, ◌++◌, ltb, ◌==◌, if◌then◌else◌, length, Text,
  bytes, is_empty, has_prefix,
}
use source_rudder.Types.{FetchResponse, unset}

pub record RegexLibrary : Type 0 where
  -- FindStringSubmatch and FindAllStringSubmatch: the whole match, then its groups.
  pub find : Text → Text → Option (List Text)
  pub find_all : Text → Text → List (List Text)
  -- ReplaceAllString of a pattern, in a text, by a text.
  pub replace_all : Text → Text → Text → Text
  pub trim_space : Text → Text
  -- The fields of a JSON object that are strings, if it is one.
  pub decode_object : Text → Option (List (Text × Text))
  pub arrange : List (Text × Text) → List (Text × Text)

-- m[1]
abbrev pub group_one : List Text → Text
group_one (whole ∷ group ∷ groups) = group
group_one _ = []

abbrev pub whole_match : List Text → Text
whole_match [] = []
whole_match (whole ∷ groups) = whole

unfoldable pub title_patterns : List Text
title_patterns =
    bytes "<meta[^>]*property=[\"']og:title[\"'][^>]*content=[\"']([^\"']*)[\"']"
    ∷ bytes "<meta[^>]*content=[\"']([^\"']*)[\"'][^>]*property=[\"']og:title[\"']"
    ∷ bytes "<title[^>]*>([^<]*)</title>"
    ∷ bytes "<h1[^>]*>([^<]*)</h1>"
    ∷ []

unfoldable pub article_patterns : List Text
article_patterns =
    bytes "<article[^>]*>([\\s\\S]*?)</article>"
    ∷ bytes "<main[^>]*>([\\s\\S]*?)</main>"
    ∷ bytes
        "<div[^>]*class=[\"'][^\"']*(?:content|article|post|entry|main|body)[^\"']*[\"'][^>]*>([\\s\\S]*?)</div>"
    ∷ []

module _ (rx : RegexLibrary) where
  -- The loop over the patterns of a title.
  unfoldable pub first_title : List Text → Text → Text
  first_title [] html = []
  first_title (pattern_ ∷ patterns) html = elim (rx.find pattern_ html) [
    | none ↦ first_title patterns html
    | some m ↦ if ltb 1 (length m) then rx.trim_space (group_one m) else first_title patterns html
  ]

  unfoldable pub extract_title : Text → Text
  extract_title html = first_title title_patterns html

  unfoldable pub clean_html : Text → Text
  clean_html html =
      rx.replace_all (bytes "<!--[\\s\\S]*?-->")
        (rx.replace_all (bytes "<style[^>]*>[\\s\\S]*?</style>")
          (rx.replace_all (bytes "<script[^>]*>[\\s\\S]*?</script>") html []) [])
        []

  unfoldable pub without_tags : Text → Text → Text
  without_tags html by = rx.replace_all (bytes "<[^>]+>") html by

  unfoldable pub on_one_line : Text → Text
  on_one_line text = rx.replace_all (bytes "\\s+") text (bytes " ")

  -- The text of a piece of HTML, where a tag becomes the given text.
  unfoldable pub plain_text : Text → Text → Text
  plain_text html by = rx.trim_space (on_one_line (without_tags html by))

  -- The loop over the patterns of an article.
  unfoldable pub long_block : List Text → Text → Option Text
  long_block [] cleaned = none
  long_block (pattern_ ∷ patterns) cleaned =
      let rest = long_block patterns cleaned in
      elim (rx.find pattern_ cleaned) [
        | none ↦ rest
        | some m ↦
            let text = plain_text (group_one m) (bytes "\n") in
            if ltb 1 (length m) && ltb 100 (length text) then some text else rest
      ]

  -- The texts of the matches that are longer than a number of bytes, each followed by an empty line.
  unfoldable pub long_paragraphs : ℕ → List (List Text) → Text
  long_paragraphs least [] = []
  long_paragraphs least (m ∷ ms) =
      let rest = long_paragraphs least ms in
      let text = plain_text (group_one m) (bytes " ") in
      if ltb least (length text) then text ++ (bytes "\n\n" ++ rest) else rest

  unfoldable pub extract_main_content : Text → Text
  extract_main_content html =
      let cleaned = clean_html html in
      let paragraphs = rx.find_all (bytes "<p[^>]*>([\\s\\S]*?)</p>") cleaned in
      let content = rx.trim_space (long_paragraphs 50 paragraphs) in
      elim (long_block article_patterns cleaned) [
        | some text ↦ text
        | none ↦
            if length paragraphs == 0
            then plain_text cleaned (bytes " ")
            else if is_empty content
            then plain_text cleaned (bytes " ")
            else content
      ]

  -- The headings of an article.
  unfoldable pub article_headings : List (List Text) → Text
  article_headings [] = []
  article_headings (m ∷ ms) =
      let rest = article_headings ms in
      let text = rx.trim_space (without_tags (group_one m) (bytes " ")) in
      if not (is_empty text) then bytes "## " ++ (text ++ (bytes "\n\n" ++ rest)) else rest

  -- The headings and paragraphs, where there is no article.
  unfoldable pub headed_paragraphs : Text → Text
  headed_paragraphs cleaned = rx.trim_space (
      article_headings (rx.find_all (bytes "<h[1-6][^>]*>([\\s\\S]*?)</h[1-6]>") cleaned)
      ++ long_paragraphs 30 (rx.find_all (bytes "<p[^>]*>([\\s\\S]*?)</p>") cleaned))

  unfoldable pub extract_article_content : Text → Text
  extract_article_content html =
      let cleaned = clean_html html in
      elim (rx.find (bytes "<article[^>]*>([\\s\\S]*?)</article>") cleaned) [
        | none ↦ headed_paragraphs cleaned
        | some m ↦
            if ltb 1 (length m)
            then plain_text (group_one m) (bytes "\n")
            else headed_paragraphs cleaned
      ]

  unfoldable pub code_blocks : List (List Text) → Text
  code_blocks [] = []
  code_blocks (m ∷ ms) =
      let rest = code_blocks ms in
      let text = plain_text (group_one m) (bytes " ") in
      if not (is_empty text) then bytes "```\n" ++ (text ++ (bytes "\n```\n\n" ++ rest)) else rest

  unfoldable pub heading_level : Text → Text
  heading_level whole =
      if has_prefix whole (bytes "<h2")
      then bytes "##"
      else if has_prefix whole (bytes "<h3")
      then bytes "###"
      else if has_prefix whole (bytes "<h4")
      then bytes "####"
      else bytes "#"

  unfoldable pub doc_headings : List (List Text) → Text
  doc_headings [] = []
  doc_headings (m ∷ ms) =
      let rest = doc_headings ms in
      let text = rx.trim_space (without_tags (group_one m) (bytes " ")) in
      if not (is_empty text)
      then heading_level (whole_match m) ++ (bytes " " ++ (text ++ (bytes "\n\n" ++ rest)))
      else rest

  unfoldable pub list_items : List (List Text) → Text
  list_items [] = []
  list_items (m ∷ ms) =
      let rest = list_items ms in
      let text = plain_text (group_one m) (bytes " ") in
      if not (is_empty text) then bytes "- " ++ (text ++ (bytes "\n" ++ rest)) else rest

  unfoldable pub doc_lists : List (List Text) → Text
  doc_lists [] = []
  doc_lists (m ∷ ms) =
      let rest = doc_lists ms in
      list_items (rx.find_all (bytes "<li[^>]*>([\\s\\S]*?)</li>") (group_one m))
      ++ (bytes "\n" ++ rest)

  unfoldable pub extract_doc_content : Text → Text
  extract_doc_content html =
      let cleaned = clean_html html in
      rx.trim_space (
        code_blocks (rx.find_all (bytes "<pre[^>]*>([\\s\\S]*?)</pre>") cleaned)
        ++ (doc_headings (rx.find_all (bytes "<h[1-4][^>]*>([\\s\\S]*?)</h[1-4]>") cleaned)
            ++ doc_lists (rx.find_all (bytes "<[uo]l[^>]*>([\\s\\S]*?)</[uo]l>") cleaned)))
