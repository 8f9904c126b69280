-- ===== src/Connectors/LocalIndex/Found.antt =====
-- The documents of the corpus that match, and the items that are made of them.
use source_rudder.Prelude.{
  ◌≡◌, ap, inl, inr, Bool, true, false, ◌&&◌, ◌||◌, none, List, [], ◌∷◌, ◌++◌, arith, Bool-cases,
  All, pos, Text, bytes, text_eq, text_eq_iff, text_eq_self, contains,
}
use mathlib.Core.List.{Mem, mem-cons_self, mem-cons_of_mem}
use source_rudder.Connectors.LocalIndex.Corpus.{LocalIndexDocument, Runes}
use source_rudder.Connectors.LocalIndex.{
  local_items, RankedDocument, IndexEnvironment, Haystack, haystack_of, SearchResultItem,
}

-- Whether a term occurs in one of the texts.
abbrev pub occurs : Haystack → Text → Bool
occurs h term =
    contains h.title term || contains h.tags term || contains h.snippet term || contains h.id term

abbrev pub all_occur : Haystack → List Text → Bool
all_occur h [] = true
all_occur h (t ∷ ts) = occurs h t && all_occur h ts

-- Whether there are terms, and all of them occur in the document.
abbrev pub is_match : Runes → List Text → LocalIndexDocument → Bool
is_match rt [] d = false
is_match rt (t ∷ ts) d = all_occur (haystack_of rt d) (t ∷ ts)

-- The texts that an item is made of are the same.
abbrev same_texts : LocalIndexDocument → LocalIndexDocument → Bool
same_texts c d =
    text_eq c.id d.id
    && text_eq c.title d.title
    && text_eq c.url d.url
    && text_eq c.snippet d.snippet
    && text_eq c.author d.author

-- Whether the texts are those of a document of the list that matches.
abbrev pub found_in :
    IndexEnvironment → List Text → List LocalIndexDocument → LocalIndexDocument → Bool
found_in env terms [] c = false
found_in env terms (d ∷ ds) c =
    is_match env.runes terms d && same_texts c d || found_in env terms ds c

-- The item is made of a document of the corpus that matches.
abbrev pub FoundIn :
    IndexEnvironment → List Text → List LocalIndexDocument → SearchResultItem → Type 0
FoundIn env terms docs item =
    (d : LocalIndexDocument) × Mem d docs
    × (is_match env.runes terms d ≡ true)
    × (item.title ≡ d.title)
    × (item.url ≡ d.url)
    × (item.snippet ≡ d.snippet)
    × (item.author ≡ d.author)
    × (item.citation_id ≡ bytes "local-index:" ++ d.id)

-- The item that local_items makes of a ranked document.
abbrev item_of : RankedDocument → SearchResultItem
item_of r = record {
  title = r.doc.title;
  url = r.doc.url;
  snippet = r.doc.snippet;
  source = bytes "local_index";
  engine = [];
  type = bytes "document";
  score = pos r.score;
  published_at = none;
  author = r.doc.author;
  tags = r.doc.tags;
  citation_id = bytes "local-index:" ++ r.doc.id;
  canonical_url = [];
}

found_in-FoundIn :
    (env : IndexEnvironment) (terms : List Text) (docs : List LocalIndexDocument)
    (r : RankedDocument)
    → found_in env terms docs r.doc ≡ true
    → FoundIn env terms docs (item_of r)
found_in-FoundIn env terms [] r h = cc
found_in-FoundIn env terms (d ∷ ds) r h =
    elim (Bool-cases (is_match env.runes terms d && same_texts r.doc d)) [
      | inl b ↦ (
        d,
        mem-cons_self,
        ground (arith, b),
        ground (arith, b, text_eq_iff r.doc.title d.title),
        ground (arith, b, text_eq_iff r.doc.url d.url),
        ground (arith, b, text_eq_iff r.doc.snippet d.snippet),
        ground (arith, b, text_eq_iff r.doc.author d.author),
        ap (λ id. bytes "local-index:" ++ id) (ground (arith, b, text_eq_iff r.doc.id d.id)),
      )
      | inr b ↦
          let (e, m, matches, title, url, snippet, author, id) =
            found_in-FoundIn env terms ds r (ground (arith, b, h)) in
          (e, mem-cons_of_mem d m, matches, title, url, snippet, author, id)
    ]

pub local_items-FoundIn :
    (env : IndexEnvironment) (terms : List Text) (docs : List LocalIndexDocument)
    (rs : List RankedDocument)
    → All (λ r. found_in env terms docs r.doc ≡ true) rs
    → All (FoundIn env terms docs) (local_items rs)
unfolding local_items
local_items-FoundIn env terms docs [] h = tt
local_items-FoundIn env terms docs (r ∷ rs) h =
    (found_in-FoundIn env terms docs r h.0, local_items-FoundIn env terms docs rs h.1)

pub found_in_self :
    (env : IndexEnvironment) (terms : List Text) (docs ds : List LocalIndexDocument)
    → ((c : LocalIndexDocument) → found_in env terms ds c ≡ true → found_in env terms docs c ≡ true)
    → All (λ d. is_match env.runes terms d ≡ true → found_in env terms docs d ≡ true) ds
found_in_self env terms docs [] h = tt
found_in_self env terms docs (d ∷ ds) h = (
  λ m. h d (
      ground (
        arith,
        m,
        text_eq_self d.id,
        text_eq_self d.title,
        text_eq_self d.url,
        text_eq_self d.snippet,
        text_eq_self d.author,
      )),
  found_in_self env terms docs ds (λ c f. h c (ground (arith, f))),
)
