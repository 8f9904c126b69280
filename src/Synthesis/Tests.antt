-- ===== src/Synthesis/Tests.antt =====
-- The theorems on the synthesis at three results.
use source_rudder.Prelude.{Option, none, some, List, [], ◌∷◌, ℤ, pos, Text, bytes}
use source_rudder.Types.{SearchResultItem}
use source_rudder.Synthesis.{Runtime}

abbrev runtime : Runtime
runtime = record {
  to_lower = λ s. s;
  fields = λ s. s ∷ [];
  arrange_themes = λ m. m;
  arrange_categories = λ m. m;
  arrange_counts = λ m. m;
  sort_themes = λ ts. ts;
}

abbrev item : Text → Option ℤ → SearchResultItem
item url moment = record {
  title = bytes "docs";
  url = url;
  snippet = bytes "an api";
  source = bytes "web";
  engine = [];
  type = [];
  score = pos 0;
  published_at = moment;
  author = [];
  tags = [];
  citation_id = [];
  canonical_url = [];
}

abbrev found : List SearchResultItem
found =
    item (bytes "a") (some (pos 5)) ∷ item (bytes "b") none ∷ item (bytes "c") (some (pos 9)) ∷ []
