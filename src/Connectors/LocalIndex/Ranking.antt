-- ===== src/Connectors/LocalIndex/Ranking.antt =====
-- Which documents of the corpus a search of the local index answers with.
use source_rudder.Prelude.{
  ℕ, suc, ◌≤◌, ◌≡◌, refl, sym, ◌∙◌, inl, inr, Bool, true, false, Option, none, some, List, [], ◌∷◌,
  arith, Bool-cases, Option-cases, length, take, length-take, select, length-select-le, All,
  All-take, elems, ℤ, Text,
}
use Prim.Native.Nat.{min}
use source_rudder.Types.{ok}
use source_rudder.Connectors.LocalIndex.Found.{
  occurs, all_occur, is_match, found_in, FoundIn, local_items-FoundIn, found_in_self,
}
use source_rudder.Connectors.LocalIndex.Corpus.{LocalIndexDocument, Runes}
use source_rudder.Connectors.LocalIndex.{
  local_index_terms, SearchResponse, local_limit, local_response, local_search, SearchRequest,
  local_items, RankedDocument, IndexEnvironment, Haystack, haystack_of, term_points, score_terms,
  score_local_index_document, rank_documents,
}

-- What sort.Slice does to a slice: every kind of element is there as often as before.
abbrev pub Rearranges : (List RankedDocument → List RankedDocument) → Type 0
Rearranges sort =
    (p : RankedDocument → Bool) (rs : List RankedDocument)
    → length (select p (sort rs)) ≡ length (select p rs)

abbrev is_some : Option ℕ → Bool
is_some none = false
is_some (some n) = true

score_terms-is_some :
    (h : Haystack) (ts : List Text) (n : ℕ) → is_some (score_terms h n ts) ≡ all_occur h ts
unfolding score_terms term_points
score_terms-is_some h [] n = refl
score_terms-is_some h (t ∷ ts) n = elim (Bool-cases (occurs h t)) [
  | inl b ↦ rw b (score_terms-is_some h ts _)
  | inr b ↦ rw b refl
]

score-is_match :
    (rt : Runes) (d : LocalIndexDocument) (ts : List Text) (phrase : Text)
    → is_some (score_local_index_document rt d ts phrase) ≡ is_match rt ts d
unfolding score_local_index_document
score-is_match rt d [] phrase = refl
score-is_match rt d (t ∷ ts) phrase =
    let found = score_terms-is_some (haystack_of rt d) (t ∷ ts) 0 in
    elim (Option-cases (score_terms (haystack_of rt d) 0 (t ∷ ts))) [
      | inl q ↦ rw (is_some, q) (rw (is_some, q) at found)
      | inr (n, q) ↦ rw (is_some, q) (rw (is_some, q) at found)
    ]

-- Every element passes the test when as many pass as there are.
All-select :
    (p : RankedDocument → Bool) (rs : List RankedDocument)
    → length (select p rs) ≡ length rs
    → All (λ r. p r ≡ true) rs
All-select p [] h = tt
All-select p (r ∷ rs) h = elim (Bool-cases (p r)) [
  | inl b ↦ (b, All-select p rs (ground (arith, b, h)))
  | inr b ↦ absurd (ground (arith, b, h, length-select-le p rs))
]

select-All :
    (p : RankedDocument → Bool) (rs : List RankedDocument)
    → All (λ r. p r ≡ true) rs
    → length (select p rs) ≡ length rs
select-All p [] h = refl
select-All p (r ∷ rs) h = ground (arith, h.0, select-All p rs h.1)

all_true : (rs : List RankedDocument) → All (λ _. true ≡ true) rs
all_true [] = tt
all_true (r ∷ rs) = (refl, all_true rs)

All-Rearranges :
    (sort : List RankedDocument → List RankedDocument)
    → Rearranges sort
    → (p : RankedDocument → Bool) (rs : List RankedDocument) → All (λ r. p r ≡ true) rs
    → All (λ r. p r ≡ true) (sort rs) × (length (sort rs) ≡ length rs)
All-Rearranges sort same p rs h =
    let counted : length (sort rs) ≡ length rs =
      sym (select-All (λ _. true) (sort rs) (all_true (sort rs)))
      ∙ same (λ _. true) rs
      ∙ select-All (λ _. true) rs (all_true rs) in
    (All-select p (sort rs) (same p rs ∙ select-All p rs h ∙ sym counted), counted)

module _ (env : IndexEnvironment) (terms : List Text) (phrase : Text) where
  abbrev matching : List LocalIndexDocument → List LocalIndexDocument
  matching ds = select (is_match env.runes terms) ds

  rank_documents-matching :
      (i : ℕ) (docs ds : List LocalIndexDocument)
      → ((j : ℕ) → env.ctx_err j ≡ none)
      → All (λ d. is_match env.runes terms d ≡ true → found_in env terms docs d ≡ true) ds
      → (ranked : List RankedDocument) × (rank_documents env terms phrase i ds ≡ ok ranked)
        × (length ranked ≡ length (matching ds))
        × All (λ r. found_in env terms docs r.doc ≡ true) ranked
  unfolding rank_documents
  rank_documents-matching i docs [] live known = ([], refl, refl, tt)
  rank_documents-matching i docs (d ∷ ds) live known =
      let (ranked, q, counted, all) = rank_documents-matching (suc i) docs ds live known.1 in
      let some_match = score-is_match env.runes d terms phrase in
      elim (Option-cases (score_local_index_document env.runes d terms phrase)) [
        | inl s ↦
            (ranked, ground (arith, live i, q, s), ground (arith, counted, some_match, s), all)
        | inr (n, s) ↦ (
          record { doc = d; score = n } ∷ ranked,
          ground (arith, live i, q, s),
          ground (arith, counted, some_match, s),
          (known.0 (ground (arith, some_match, s)), all),
        )
      ]

length-local_items : (rs : List RankedDocument) → length (local_items rs) ≡ length rs
unfolding local_items
length-local_items [] = refl
length-local_items (r ∷ rs) = omega (arith, length-local_items rs)

-- How many results a search has, and what they are.
pub record Answers (env : IndexEnvironment) (docs : List LocalIndexDocument) (req : SearchRequest)
    (resp : SearchResponse) : Type 0 where
  counted :
      length (elems resp.results)
      ≡ min
          (local_limit req.max_results)
          (length (select (is_match env.runes (local_index_terms env req.query)) docs))
  bounded : length (elems resp.results) ≤ 50
  found : All (FoundIn env (local_index_terms env req.query) docs) (elems resp.results)

local_limit_le : (n : ℤ) → local_limit n ≤ 50
unfolding local_limit
local_limit_le n = ground arith

-- If the sort only rearranges and the context stays live, a search of the local index is answered,
-- with as many results as there are documents in which every term of the query occurs, or the
-- limit if that is less, never more than 50; and each result carries the title, URL, snippet,
-- author and id of such a document, which is one of the corpus.
pub local_search-Answers :
    (env : IndexEnvironment) (docs : List LocalIndexDocument) (req : SearchRequest)
    → Rearranges env.sort_ranked
    → ((j : ℕ) → env.ctx_err j ≡ none)
    → (resp : SearchResponse) × (local_search env docs req ≡ ok resp) × Answers env docs req resp
unfolding local_search local_response
local_search-Answers env docs req same live =
    let terms = local_index_terms env req.query in
    let phrase = env.runes.to_lower (env.runes.trim_space req.query) in
    let (ranked, q, counted, all) =
      rank_documents-matching env terms phrase 0 docs docs live
        (found_in_self env terms docs docs λ c f. f) in
    let (sorted, kept) =
      All-Rearranges env.sort_ranked same (λ r. found_in env terms docs r.doc) ranked all in
    (
      local_response env req ranked,
      rw (local_search, q) refl,
      record {
        counted = omega (
          arith,
          length-local_items (take (local_limit req.max_results) (env.sort_ranked ranked)),
          length-take (local_limit req.max_results) (env.sort_ranked ranked),
          kept,
          counted,
        );
        bounded = omega (
          arith,
          length-local_items (take (local_limit req.max_results) (env.sort_ranked ranked)),
          length-take (local_limit req.max_results) (env.sort_ranked ranked),
          local_limit_le req.max_results,
        );
        found =
            local_items-FoundIn env terms docs _
              (All-take _ (local_limit req.max_results) _ sorted);
      },
    )
