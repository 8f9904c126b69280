-- ===== src/Connectors/LocalIndex.antt =====
-- internal/connectors/local_index.go. The functions on runes (strings.ToLower, strings.TrimSpace,
-- the fields of letters and numbers, utf8.RuneCountInString) and sort.Slice are parameters. A score
-- is a whole number.
pub mod Corpus
pub mod Terms
pub mod Ranking
pub mod Found
mod Tests
use source_rudder.Prelude.{
  ℕ, suc, ◌+◌, Bool, ◌||◌, Option, none, some, List, [], ◌∷◌, ◌++◌, ltb, ◌==◌, if◌then◌else◌,
  length, take, Slice, ℤ, pos, pos_part, ltb_ℤ, leb_ℤ, Text, bytes, contains, join,
}
use source_rudder.Types.{
  SearchRequest, SearchResultItem, SearchResponse, no_response, Failure, Result, ok, err,
}
use source_rudder.Normalization.{seen_before}
use source_rudder.Connectors.LocalIndex.Corpus.{LocalIndexDocument, Runes}

abbrev pub max_local_index_results : ℤ
max_local_index_results = pos 50

pub record RankedDocument : Type 0 where
  pub doc : LocalIndexDocument
  pub score : ℕ

pub record IndexEnvironment : Type 0 where
  pub runes : Runes
  -- strings.FieldsFunc at what is neither a letter nor a number.
  pub fields : Text → List Text
  -- sort.Slice by falling score, then by rising title.
  pub sort_ranked : List RankedDocument → List RankedDocument
  -- What ctx.Err() says before the document of an index.
  pub ctx_err : ℕ → Option Failure

-- The loop of localIndexTerms after `seen`; the set `seen` and the list `terms` hold the same.
unfoldable pub add_terms : (Text → ℕ) → List Text → List Text → List Text
add_terms count terms [] = terms
add_terms count terms (field ∷ fields) =
    if ltb 64 (count field) || (length terms == 32)
    then add_terms count terms fields
    else if seen_before field terms
    then add_terms count terms fields
    else add_terms count (terms ++ field ∷ []) fields

unfoldable pub local_index_terms : IndexEnvironment → Text → List Text
local_index_terms env query =
    add_terms env.runes.rune_count [] (env.fields (env.runes.to_lower query))

-- The four texts of a document that a term is looked for in, in lower case.
pub record Haystack : Type 0 where
  pub title : Text
  pub tags : Text
  pub snippet : Text
  pub id : Text

unfoldable pub haystack_of : Runes → LocalIndexDocument → Haystack
haystack_of rt doc = record {
  title = rt.to_lower doc.title;
  tags = rt.to_lower (join doc.tags (bytes " "));
  snippet = rt.to_lower doc.snippet;
  id = rt.to_lower doc.id;
}

unfoldable pub points : Bool → ℕ → ℕ
points found n = if found then n else 0

-- What a term adds to the score, and whether it is matched.
unfoldable pub term_points : Haystack → Text → ℕ × Bool
unfolding points
term_points h term =
    let in_title = contains h.title term in
    let in_tags = contains h.tags term in
    let in_snippet = contains h.snippet term in
    let in_id = contains h.id term in
    (
      points in_title 4 + points in_tags 3 + points in_snippet 1 + points in_id 2,
      in_title || in_tags || in_snippet || in_id,
    )

-- The loop over the terms.
unfoldable pub score_terms : Haystack → ℕ → List Text → Option ℕ
score_terms h score [] = some score
score_terms h score (term ∷ terms) =
    let (added, matched) = term_points h term in
    if matched then score_terms h (score + added) terms else none

unfoldable pub score_local_index_document : Runes → LocalIndexDocument → List Text → Text → Option ℕ
score_local_index_document rt doc [] phrase = none
score_local_index_document rt doc (t ∷ ts) phrase =
    let h = haystack_of rt doc in
    elim (score_terms h 0 (t ∷ ts)) [
      | none ↦ none
      | some score ↦ some (
          if contains h.title phrase
          then score + 8
          else if contains h.snippet phrase
          then score + 2
          else score)
    ]

-- The loop over the documents, from the index i on.
unfoldable pub rank_documents :
    IndexEnvironment → List Text → Text → ℕ → List LocalIndexDocument → Result (List RankedDocument)
rank_documents env terms phrase i [] = ok []
rank_documents env terms phrase i (d ∷ ds) =
    let rest = rank_documents env terms phrase (suc i) ds in
    elim (env.ctx_err i) [
      | some e ↦ err e
      | none ↦ elim rest [
        | err e ↦ err e
        | ok ranked ↦ elim (score_local_index_document env.runes d terms phrase) [
          | none ↦ ok ranked
          | some score ↦ ok (record { doc = d; score = score } ∷ ranked)
        ]
      ]
    ]

unfoldable pub local_items : List RankedDocument → List SearchResultItem
local_items [] = []
local_items (r ∷ rs) =
    record {
      title = r.doc.title;
      url = r.doc.url;
      snippet = r.doc.snippet;
      source = bytes "local_index";
      engine = [];
      type = bytes "document";
      score = pos r.score;
      published_at = none;
      author = r.doc.author;
      tags = r.doc.tags;
      citation_id = bytes "local-index:" ++ r.doc.id;
      canonical_url = [];
    }
    ∷ local_items rs

unfoldable pub local_limit : ℤ → ℕ
local_limit requested =
    let wanted = if leb_ℤ requested (pos 0) then pos 10 else requested in
    pos_part (if ltb_ℤ max_local_index_results wanted then max_local_index_results else wanted)

-- The response, from the documents that match.
unfoldable pub local_response :
    IndexEnvironment → SearchRequest → List RankedDocument → SearchResponse
local_response env req ranked = record no_response {
  query = req.query;
  results = some (local_items (take (local_limit req.max_results) (env.sort_ranked ranked)));
  sources_used = some (bytes "local_index" ∷ []);
  strategy = bytes "local_index_lexical";
}

unfoldable pub local_search :
    IndexEnvironment → List LocalIndexDocument → SearchRequest → Result SearchResponse
local_search env documents req =
    elim (rank_documents env (local_index_terms env req.query)
      (env.runes.to_lower (env.runes.trim_space req.query)) 0 documents) [
        | err e ↦ err e
        | ok ranked ↦ ok (local_response env req ranked)
      ]
