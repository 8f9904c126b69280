-- ===== src/Fetch/Extractor/Data.antt =====
-- internal/fetch/extractor.go: tables, metadata and the whole extraction. The order in which the map of
-- patterns is visited is that of `arrange`.
use source_rudder.Prelude.{
  ℕ, suc, String, ◌&&◌, none, some, List, [], ◌∷◌, ◌++◌, ltb, ◌==◌, if◌then◌else◌, length, Text,
  bytes, is_empty, show_nat, lookup, insert,
}
use source_rudder.Types.{FetchResponse, unset}
use source_rudder.Fetch.Extractor.{
  RegexLibrary, group_one, plain_text, extract_title, extract_main_content,
}

-- A meta tag whose name or property is a key.
abbrev pub meta_pattern : String → String → Text
meta_pattern attribute key =
    bytes "<meta[^>]*"
    ++ (bytes attribute
        ++ (bytes "=[\"']" ++ (bytes key ++ bytes "[\"'][^>]*content=[\"']([^\"']*)[\"']")))

unfoldable pub meta_patterns : List (Text × Text)
meta_patterns =
    (bytes "description", meta_pattern "name" "description")
    ∷ (bytes "keywords", meta_pattern "name" "keywords")
    ∷ (bytes "og:title", meta_pattern "property" "og:title")
    ∷ (bytes "og:description", meta_pattern "property" "og:description")
    ∷ (bytes "og:image", meta_pattern "property" "og:image")
    ∷ (bytes "twitter:card", meta_pattern "name" "twitter:card")
    ∷ (bytes "twitter:title", meta_pattern "name" "twitter:title")
    ∷ (bytes "author", meta_pattern "name" "author")
    ∷ (bytes "robots", meta_pattern "name" "robots")
    ∷ (bytes "canonical", bytes "<link[^>]*rel=[\"']canonical[\"'][^>]*href=[\"']([^\"']*)[\"']")
    ∷ (bytes "alternate", bytes "<link[^>]*rel=[\"']alternate[\"'][^>]*href=[\"']([^\"']*)[\"']")
    ∷ []

abbrev pub jsonld_pattern : Text
jsonld_pattern = bytes "<script[^>]*type=[\"']application/ld\\+json[\"'][^>]*>([\\s\\S]*?)</script>"

module _ (rx : RegexLibrary) where
  unfoldable pub cell_texts : List (List Text) → List Text
  cell_texts [] = []
  cell_texts (m ∷ ms) = plain_text rx (group_one m) (bytes " ") ∷ cell_texts ms

  -- A row under the names of the headers.
  unfoldable pub named_row : List Text → List Text → List (Text × Text) → List (Text × Text)
  named_row (h ∷ hs) (c ∷ cs) row = named_row hs cs (insert h c row)
  named_row _ _ row = row

  -- A row whose cells are numbered, from the index i on.
  unfoldable pub numbered_row : ℕ → List Text → List (Text × Text) → List (Text × Text)
  numbered_row i [] row = row
  numbered_row i (c ∷ cs) row =
      numbered_row (suc i) cs (insert (bytes "column_" ++ show_nat i) c row)

  unfoldable pub row_of : List Text → List Text → List (Text × Text)
  row_of headers cells =
      if ltb 0 (length headers) && length headers == length cells
      then named_row headers cells []
      else numbered_row 0 cells []

  unfoldable pub table_rows : List Text → List (List Text) → List (List (Text × Text))
  table_rows headers [] = []
  table_rows headers (m ∷ ms) =
      let rest = table_rows headers ms in
      let cells =
        cell_texts (rx.find_all (bytes "<t[dh][^>]*>([\\s\\S]*?)</t[dh]>") (group_one m)) in
      if length cells == 0 then rest else row_of headers cells ∷ rest

  unfoldable pub rows_of_tables : List (List Text) → List (List (Text × Text))
  rows_of_tables [] = []
  rows_of_tables (m ∷ ms) =
      let rest = rows_of_tables ms in
      table_rows (cell_texts (rx.find_all (bytes "<th[^>]*>([\\s\\S]*?)</th>") (group_one m)))
        (rx.find_all (bytes "<tr[^>]*>([\\s\\S]*?)</tr>") (group_one m))
      ++ rest

  unfoldable pub extract_tables : Text → List (List (Text × Text))
  extract_tables html = rows_of_tables (rx.find_all (bytes "<table[^>]*>([\\s\\S]*?)</table>") html)

  -- The loop over the patterns of the metadata.
  unfoldable pub meta_entries : List (Text × Text) → Text → List (Text × Text) → List (Text × Text)
  meta_entries [] html metadata = metadata
  meta_entries ((key, pattern_) ∷ patterns) html metadata = elim (rx.find pattern_ html) [
    | none ↦ meta_entries patterns html metadata
    | some m ↦
        if ltb 1 (length m)
        then meta_entries patterns html (insert key (rx.trim_space (group_one m)) metadata)
        else meta_entries patterns html metadata
  ]

  -- A string field of the JSON-LD, under a key of its own.
  unfoldable pub json_field :
      List (Text × Text) → String → String → List (Text × Text) → List (Text × Text)
  json_field fields field key metadata = elim (lookup (bytes field) fields) [
    | none ↦ metadata
    | some v ↦ insert (bytes key) v metadata
  ]

  unfoldable pub json_entries : List (Text × Text) → List (Text × Text) → List (Text × Text)
  json_entries fields metadata = json_field fields "url" "jsonld:url" (
      json_field fields "description" "jsonld:description"
        (json_field fields "name" "jsonld:name" metadata))

  unfoldable pub json_metadata : Text → List (Text × Text) → List (Text × Text)
  json_metadata html metadata = elim (rx.find jsonld_pattern html) [
    | none ↦ metadata
    | some m ↦
        if ltb 1 (length m)
        then elim (rx.decode_object (group_one m)) [
          | none ↦ metadata
          | some fields ↦ json_entries fields metadata
        ]
        else metadata
  ]

  unfoldable pub titled : Text → List (Text × Text) → List (Text × Text)
  titled title metadata = if is_empty title then metadata else insert (bytes "title") title metadata

  unfoldable pub extract_metadata : Text → List (Text × Text)
  extract_metadata html =
      json_metadata html
        (titled (extract_title rx html) (meta_entries (rx.arrange meta_patterns) html []))

  unfoldable pub extract : Text → Text → FetchResponse
  extract html url = record {
    url = url;
    title = extract_title rx html;
    content = extract_main_content rx html;
    metadata = extract_metadata html;
    warnings = [];
    outcome = unset;
    status = 0;
    redirect_chain = [];
    attempts = 0;
  }
