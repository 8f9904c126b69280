-- ===== src/Connectors/Indexed/Limit.antt =====
-- How many results the connectors to an index answer with, whatever the index finds.
use source_rudder.Prelude.{
  ℕ, suc, ◌-◌, ◌≤◌, inl, inr, Option, List, [], ◌∷◌, arith, leb, Bool-cases, length, elems, ℤ, pos,
  pos_part, Text,
}
use source_rudder.Types.{SearchRequest, SearchResultItem, SearchResponse, Failure, ok, err}
use source_rudder.Connectors.Api.{ApiAnswer, unbuilt, failed, replied}
use source_rudder.Connectors.Degradation.{SearchError}
use source_rudder.Connectors.Web.{get_max_results}
use source_rudder.Connectors.Web.Limit.{get_max_results_le, record_searxng_error-results}
use source_rudder.Connectors.Indexed.{
  IndexedResult, IndexEnvironment, Decoded, indexed_results, indexed_response,
}
use source_rudder.Connectors.Indexed.Video.{video_items, video_afresh}
use source_rudder.Connectors.Indexed.News.{news_items, news_afresh}
use source_rudder.Connectors.Indexed.Academic.{academic_items, academic_afresh}
use source_rudder.Connectors.Indexed.Reddit.{RedditEnvironment, reddit_afresh}
use source_rudder.Connectors.Indexed.Reddit.Posts.{Posts, post_items-Posts}
use source_rudder.Connectors.Indexed.Images.{
  image_items, images_found, images_afresh, RankedImageCandidate,
}
use source_rudder.Connectors.Indexed.Images.Snippet.{ImageEnvironment}

response-results :
    (P : List SearchResultItem → Type 0) (source strategy query : Text) (rs : List SearchResultItem)
    (e : Option SearchError)
    → P rs
    → P (elems (indexed_response source strategy query (rs, e)).results)
unfolding indexed_response
response-results P source strategy query rs e p = rw (record_searxng_error-results source rs e _) p

-- What holds of no results and of those that are made of an answer holds of the response.
indexed_response-results :
    (P : List SearchResultItem → Type 0) (source strategy query : Text) (built : Failure → Failure)
    (items : List IndexedResult → List SearchResultItem) (answer : ApiAnswer Decoded)
    → P []
    → ((rs : List IndexedResult) → P (items rs))
    → P (
        elems (indexed_response source strategy query (indexed_results built items answer)).results)
unfolding indexed_results
indexed_response-results P source strategy query built items (unbuilt e) none_ok ok_all =
    response-results P source strategy query [] _ none_ok
indexed_response-results P source strategy query built items (failed e) none_ok ok_all =
    response-results P source strategy query [] _ none_ok
indexed_response-results P source strategy query built items (replied status (err e)) none_ok
      ok_all =
    elim (Bool-cases (leb 400 status)) [
      | inl b ↦ rw b (response-results P source strategy query [] _ none_ok)
      | inr b ↦ rw b (response-results P source strategy query [] _ none_ok)
    ]
indexed_response-results P source strategy query built items (replied status (ok (rs, engines)))
      none_ok ok_all =
    elim (Bool-cases (leb 400 status)) [
      | inl b ↦ rw b (response-results P source strategy query [] _ none_ok)
      | inr b ↦ rw b (response-results P source strategy query (items rs) _ (ok_all rs))
    ]

length-video_items :
    (env : IndexEnvironment) (max_results : ℤ) (i kept : ℕ) (items : List IndexedResult)
    → length (video_items env max_results i kept items) ≤ pos_part max_results - i
unfolding video_items
length-video_items env max_results i kept [] = omega arith
length-video_items env max_results i kept (item ∷ items) = ground (
  arith,
  length-video_items env max_results (suc i) (suc kept) items,
  length-video_items env max_results (suc i) kept items,
)

length-news_items :
    (max_results : ℤ) (i : ℕ) (items : List IndexedResult)
    → length (news_items max_results i items) ≤ pos_part max_results - i
unfolding news_items
length-news_items max_results i [] = omega arith
length-news_items max_results i (item ∷ items) =
    ground (arith, length-news_items max_results (suc i) items)

length-academic_items :
    (env : IndexEnvironment) (max_results : ℤ) (i : ℕ) (items : List IndexedResult)
    → length (academic_items env max_results i items) ≤ pos_part max_results - i
unfolding academic_items
length-academic_items env max_results i [] = omega arith
length-academic_items env max_results i (item ∷ items) =
    ground (arith, length-academic_items env max_results (suc i) items)

length-image_items :
    (env : ImageEnvironment) (max_results : ℤ) (i : ℕ) (cs : List RankedImageCandidate)
    → length (image_items env max_results i cs) ≤ pos_part max_results - i
unfolding image_items
length-image_items env max_results i [] = omega arith
length-image_items env max_results i (c ∷ cs) =
    ground (arith, length-image_items env max_results (suc i) cs)

-- A limit that a request gives is at most 100.
few_enough :
    (req : SearchRequest) (n : ℕ)
    → n ≤ pos_part (get_max_results req.max_results (pos 10)) - 0
    → n ≤ 100
few_enough req n h = omega (arith, h, (get_max_results_le req.max_results).0)

abbrev pub AtMost100 : SearchResponse → Type 0
AtMost100 resp = length (elems resp.results) ≤ 100

-- A response of the video, news, academic or images connector that does not come from the cache
-- has at most 100 results, whatever the index finds.
pub indexed-AtMost100 :
    (env : IndexEnvironment) (images : ImageEnvironment) (req : SearchRequest)
    → AtMost100 (video_afresh env req)
      × AtMost100 (news_afresh env req)
      × AtMost100 (academic_afresh env req)
      × AtMost100 (images_afresh images req)
unfolding video_afresh news_afresh academic_afresh images_afresh images_found
indexed-AtMost100 env images req =
    let max_results = get_max_results req.max_results (pos 10) in
    (
      indexed_response-results (λ rs. length rs ≤ 100) _ _ _ _ _ _ (omega arith)
          λ rs. few_enough req _ (length-video_items env max_results 0 0 rs),
      indexed_response-results (λ rs. length rs ≤ 100) _ _ _ _ _ _ (omega arith)
          λ rs. few_enough req _ (length-news_items max_results 0 rs),
      indexed_response-results (λ rs. length rs ≤ 100) _ _ _ _ _ _ (omega arith)
          λ rs. few_enough req _ (length-academic_items env max_results 0 rs),
      indexed_response-results (λ rs. length rs ≤ 100) _ _ _ _ _ _ (omega arith)
          λ rs. few_enough req _ (length-image_items images max_results 0 _),
    )

-- Whatever the index finds, the results that the Reddit connector makes of it are no more than the
-- limit, no two have the same URL, and each URL is that of a post on www.reddit.com with a
-- subreddit and an id of base 36.
pub reddit_afresh-Posts :
    (env : RedditEnvironment) (req : SearchRequest)
    → Posts env (get_max_results req.max_results (pos 10)) 0 (elems (reddit_afresh env req).results)
unfolding reddit_afresh
reddit_afresh-Posts env req =
    let max_results = get_max_results req.max_results (pos 10) in
    indexed_response-results (Posts env max_results 0) _ _ _ _ _ _
      (record { few = omega arith; distinct = tt; posts = tt })
      λ rs. post_items-Posts env max_results 0 [] rs
