-- ===== src/Connectors/Indexed/Reddit/Posts.antt =====
-- What the Reddit connector answers with: posts, each once.
use source_rudder.Prelude.{
  ℕ, suc, ◌-◌, ◌≤◌, ◌≡◌, refl, inl, inr, true, false, some, List, [], ◌∷◌, map, arith, Bool-cases,
  Option-cases, length, All, ℤ, pos, pos_part, leb_ℤ, Text, text_eq_iff, text_eq_self, is_empty,
}
use source_rudder.Types.{SearchResultItem}
use source_rudder.Normalization.{seen_before, NoRepeat}
use source_rudder.Connectors.Indexed.{IndexedResult}
use source_rudder.Connectors.Indexed.Reddit.{
  RedditEnvironment, is_base36_id, post_url, post_of_segments, post_of_parts,
  canonical_reddit_post_url, post_item, post_items, split_slashes, trim_slashes,
}

seen_self : (k : Text) (seen : List Text) → seen_before k (k ∷ seen) ≡ true
unfolding seen_before
seen_self k seen = ground (arith, text_eq_self k)

module _ (env : RedditEnvironment) where
  -- The URL of a post on www.reddit.com.
  abbrev pub PostUrl : Text → Type 0
  PostUrl url =
      (subreddit : Text) × (id : Text) × (is_empty subreddit ≡ false)
      × (is_base36_id id ≡ true)
      × (url ≡ post_url subreddit (env.index.to_lower id))

  segments-PostUrl :
      (segments : List Text) (url : Text) → post_of_segments env segments ≡ some url → PostUrl url
  unfolding post_of_segments
  segments-PostUrl [] url h = cc
  segments-PostUrl (a ∷ []) url h = cc
  segments-PostUrl (a ∷ b ∷ []) url h = cc
  segments-PostUrl (a ∷ b ∷ c ∷ []) url h = cc
  segments-PostUrl (r ∷ sub ∷ comments ∷ id ∷ rest) url h =
      (sub, id, ground (arith, h), ground (arith, h), ground (arith, h))

  canonical-PostUrl : (raw url : Text) → canonical_reddit_post_url env raw ≡ some url → PostUrl url
  unfolding canonical_reddit_post_url post_of_parts
  canonical-PostUrl raw url h = elim (Option-cases (env.parse_url raw)) [
    | inl q ↦ absurd (ground (arith, h, q))
    | inr (u, q) ↦ segments-PostUrl (split_slashes (trim_slashes u.path)) url (ground (arith, h, q))
  ]

  avoids :
      (max_results : ℤ) (kept : ℕ) (k : Text) (seen : List Text) (items : List IndexedResult)
      → seen_before k seen ≡ true
      → seen_before k (map (λ r. r.url) (post_items env max_results kept seen items)) ≡ false
  unfolding post_items post_item seen_before
  avoids max_results kept k seen [] h = refl
  avoids max_results kept k seen (item ∷ items) h =
      elim (Bool-cases (leb_ℤ max_results (pos kept))) [
        | inl a ↦ rw a refl
        | inr a ↦ elim (Option-cases (canonical_reddit_post_url env item.url)) [
          | inl q ↦ rw (a, q) (avoids max_results kept k seen items h)
          | inr (url, q) ↦ elim (Bool-cases (seen_before url seen)) [
            | inl b ↦ rw (a, q, b) (avoids max_results kept k seen items h)
            | inr b ↦
                let rest = avoids max_results (suc kept) k (url ∷ seen) items (ground (arith, h)) in
                rw (a, q, b) (ground (arith, rest, text_eq_iff url k, b, h))
          ]
        ]
      ]

  -- Posts of different URLs, each of which is its own canonical URL.
  pub record Posts (max_results : ℤ) (kept : ℕ) (rs : List SearchResultItem) : Type 0 where
    pub few : length rs ≤ pos_part max_results - kept
    pub distinct : NoRepeat (map (λ r. r.url) rs)
    pub posts : All (λ r. PostUrl r.url × (r.canonical_url ≡ r.url)) rs

  pub post_items-Posts :
      (max_results : ℤ) (kept : ℕ) (seen : List Text) (items : List IndexedResult)
      → Posts max_results kept (post_items env max_results kept seen items)
  unfolding post_items post_item
  post_items-Posts max_results kept seen [] = record {
    few = omega arith;
    distinct = tt;
    posts = tt;
  }
  post_items-Posts max_results kept seen (item ∷ items) =
      elim (Bool-cases (leb_ℤ max_results (pos kept))) [
        | inl a ↦ rw a (record { few = omega arith; distinct = tt; posts = tt })
        | inr a ↦ elim (Option-cases (canonical_reddit_post_url env item.url)) [
          | inl q ↦ rw (a, q) (post_items-Posts max_results kept seen items)
          | inr (url, q) ↦ elim (Bool-cases (seen_before url seen)) [
            | inl b ↦ rw (a, q, b) (post_items-Posts max_results kept seen items)
            | inr b ↦
                let rest = post_items-Posts max_results (suc kept) (url ∷ seen) items in
                rw (a, q, b)
                  (record {
                    few = ground (arith, rest.few, a);
                    distinct = (
                      avoids max_results (suc kept) url (url ∷ seen) items (seen_self url seen),
                      rest.distinct,
                    );
                    posts = ((canonical-PostUrl item.url url q, refl), rest.posts);
                  })
          ]
        ]
      ]
