-- ===== src/Fetch/Extractor/Title.antt =====
-- The title of a page and the title in its metadata.
use source_rudder.Prelude.{
  String, ◌≡◌, refl, ◌∙◌, inl, inr, false, none, some, List, [], ◌∷◌, arith, ltb, if◌then◌else◌,
  Bool-cases, Option-cases, length, Text, bytes, text_eq, text_eq_self, is_empty, lookup, insert,
  lookup-insert,
}
use source_rudder.Fetch.Extractor.{extract_title, RegexLibrary, group_one}
use source_rudder.Fetch.Extractor.Data.{
  json_entries, extract_metadata, json_metadata, jsonld_pattern, titled, meta_patterns,
  meta_entries, json_field,
}

-- A key other than "title" does not change the title.
lookup-title :
    (k v : Text) (m : List (Text × Text))
    → text_eq k (bytes "title") ≡ false
    → lookup (bytes "title") (insert k v m) ≡ lookup (bytes "title") m
lookup-title k v m h = lookup-insert (bytes "title") k v m ∙ rw h refl

-- No key of the list is "title".
abbrev Untitled : List (Text × Text) → Type 0
Untitled [] = Unit
Untitled ((key, pattern_) ∷ ps) = (text_eq key (bytes "title") ≡ false) × Untitled ps

meta_entries-title :
    (rx : RegexLibrary) (ps : List (Text × Text)) (html : Text) (m : List (Text × Text))
    → Untitled ps
    → lookup (bytes "title") (meta_entries rx ps html m) ≡ lookup (bytes "title") m
unfolding meta_entries
meta_entries-title rx [] html m h = refl
meta_entries-title rx ((key, pattern_) ∷ ps) html m h =
    elim (Option-cases (rx.find pattern_ html)) [
      | inl q ↦ rw (meta_entries, q) (meta_entries-title rx ps html m h.1)
      | inr (groups, q) ↦ elim (Bool-cases (ltb 1 (length groups))) [
        | inl b ↦
            rw (meta_entries, q, b)
              (meta_entries-title rx ps html (insert key (rx.trim_space (group_one groups)) m) h.1
                ∙ lookup-title key (rx.trim_space (group_one groups)) m h.0)
        | inr b ↦ rw (meta_entries, q, b) (meta_entries-title rx ps html m h.1)
      ]
    ]

json_field-title :
    (rx : RegexLibrary) (fields m : List (Text × Text)) (field key : String)
    → text_eq (bytes key) (bytes "title") ≡ false
    → lookup (bytes "title") (json_field rx fields field key m) ≡ lookup (bytes "title") m
unfolding json_field
json_field-title rx fields m field key h = elim (Option-cases (lookup (bytes field) fields)) [
  | inl q ↦ rw (json_field, q) refl
  | inr (v, q) ↦ rw (json_field, q) (lookup-title (bytes key) v m h)
]

Untitled-lookup : (ps : List (Text × Text)) → lookup (bytes "title") ps ≡ none → Untitled ps
unfolding lookup
Untitled-lookup [] h = tt
Untitled-lookup ((key, pattern_) ∷ ps) h = elim (Bool-cases (text_eq key (bytes "title"))) [
  | inl b ↦ absurd (ground (arith, h, b))
  | inr b ↦ (b, Untitled-lookup ps (ground (arith, h, b)))
]

lookup-titled :
    (rx : RegexLibrary) (title : Text) (m : List (Text × Text))
    → lookup (bytes "title") m ≡ none
    → lookup (bytes "title") (titled rx title m) ≡ (if is_empty title then none else some title)
unfolding titled
lookup-titled rx title m h = elim (Bool-cases (is_empty title)) [
  | inl b ↦ rw (titled, b) h
  | inr b ↦
      rw (titled, b)
        (lookup-insert (bytes "title") (bytes "title") title m
          ∙ rw (text_eq_self (bytes "title")) refl)
]

json_entries-title :
    (rx : RegexLibrary) (fields m : List (Text × Text))
    → lookup (bytes "title") (json_entries rx fields m) ≡ lookup (bytes "title") m
unfolding json_entries bytes text_eq
json_entries-title rx fields m =
    let named = json_field rx fields "name" "jsonld:name" m in
    let described = json_field rx fields "description" "jsonld:description" named in
    json_field-title rx fields described "url" "jsonld:url" refl
    ∙ (json_field-title rx fields named "description" "jsonld:description" refl
        ∙ json_field-title rx fields m "name" "jsonld:name" refl)

json_metadata-title :
    (rx : RegexLibrary) (html : Text) (m : List (Text × Text))
    → lookup (bytes "title") (json_metadata rx html m) ≡ lookup (bytes "title") m
unfolding json_metadata
json_metadata-title rx html m = elim (Option-cases (rx.find jsonld_pattern html)) [
  | inl q ↦ rw (json_metadata, q) refl
  | inr (groups, q) ↦ elim (Bool-cases (ltb 1 (length groups))) [
    | inl b ↦ elim (Option-cases (rx.decode_object (group_one groups))) [
      | inl d ↦ rw (json_metadata, q, b, d) refl
      | inr (fields, d) ↦ rw (json_metadata, q, b, d) (json_entries-title rx fields m)
    ]
    | inr b ↦ rw (json_metadata, q, b) refl
  ]
]

-- The patterns of the metadata, in an order in which a range may visit them.
abbrev pub Visits : RegexLibrary → Type 0
Visits rx = (k : Text) → lookup k (rx.arrange meta_patterns) ≡ lookup k meta_patterns

no_title_pattern : lookup (bytes "title") meta_patterns ≡ none
unfolding meta_patterns lookup bytes text_eq
no_title_pattern = refl

no_entries : lookup {V = Text} (bytes "title") [] ≡ none
unfolding lookup
no_entries = refl

-- For any order in which the map of patterns is visited, the metadata have, under "title", the
-- title that ExtractTitle finds, and nothing if that is empty: no meta tag and no JSON-LD
-- overwrites it.
pub extract_metadata-title :
    (rx : RegexLibrary) (html : Text)
    → Visits rx
    → lookup (bytes "title") (extract_metadata rx html)
      ≡ (if is_empty (extract_title rx html) then none else some (extract_title rx html))
unfolding extract_metadata
extract_metadata-title rx html v =
    let found = meta_entries rx (rx.arrange meta_patterns) html [] in
    let untitled : lookup (bytes "title") found ≡ none =
      meta_entries-title rx (rx.arrange meta_patterns) html []
        (Untitled-lookup (rx.arrange meta_patterns) (v (bytes "title") ∙ no_title_pattern))
      ∙ no_entries in
    json_metadata-title rx html (titled rx (extract_title rx html) found)
    ∙ lookup-titled rx (extract_title rx html) found untitled
