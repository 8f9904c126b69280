-- ===== src/Fetch/Extractor/Tests.antt =====
-- The title of a page whose every pattern matches the whole text.
use source_rudder.Prelude.{◌≡◌, refl, some, [], ◌∷◌, bytes, lookup}
use source_rudder.Fetch.Extractor.{
  clean_html, first_title, title_patterns, extract_title, RegexLibrary,
}
use source_rudder.Fetch.Extractor.Data.{extract_metadata}
use source_rudder.Fetch.Extractor.Title.{extract_metadata-title}

abbrev whole_text : RegexLibrary
whole_text = record {
  find = λ _ html. some (html ∷ html ∷ []);
  find_all = λ _ html. (html ∷ html ∷ []) ∷ [];
  replace_all = λ _ html _. html;
  trim_space = λ text. text;
  decode_object = λ _. some ((bytes "name", bytes "go") ∷ []);
  arrange = λ patterns. patterns;
}

title_example :
    lookup (bytes "title") (extract_metadata whole_text (bytes "ab")) ≡ some (bytes "ab")
unfolding extract_title title_patterns first_title clean_html bytes
title_example = extract_metadata-title whole_text (bytes "ab") (λ _. refl)
