-- ===== src/Search/Planner/Intent.antt =====
-- What ClassifyIntent selects: an intent none of the others exceeds, whatever the order of the map.
use source_rudder.Prelude.{
  count_at, ℕ, suc, ◌+◌, ◌≤◌, ◌<◌, String, ◌≡◌, refl, ◌∙◌, ◌⊎◌, inl, inr, none, List, [], ◌∷◌,
  arith, ltb, if◌then◌else◌, Bool-cases, Text, bytes, text_eq, text_eq_iff, text_eq_self, contains,
  lookup, insert, lookup-insert,
}
use source_rudder.Search.Planner.{
  Runtime, technical_keywords, academic_keywords, code_keywords, news_keywords, youtube_keywords,
  package_keywords, count_into, intent_scores, strongest, classify_intent,
}

-- How many of the keywords occur.
unfoldable pub hits : Text → List String → ℕ
hits lower [] = 0
hits lower (kw ∷ kws) = (if contains lower (bytes kw) then 1 else 0) + hits lower kws

abbrev pub keyword_table : List (Text × List String)
keyword_table =
    (bytes "technical", technical_keywords)
    ∷ (bytes "academic", academic_keywords)
    ∷ (bytes "code", code_keywords)
    ∷ (bytes "news", news_keywords)
    ∷ (bytes "video", youtube_keywords)
    ∷ (bytes "package", package_keywords)
    ∷ []

abbrev pub hits_in : Text → Text → List (Text × List String) → ℕ
hits_in lower j [] = 0
hits_in lower j ((i, kws) ∷ t) = hits_in lower j t + (if text_eq i j then hits lower kws else 0)

-- The number of keywords of an intent that occur in the text.
unfoldable pub intent_score : Text → Text → ℕ
intent_score lower j = hits_in lower j keyword_table

-- No key twice.
abbrev pub Distinct : List (Text × ℕ) → Type 0
Distinct [] = Unit
Distinct ((k, n) ∷ m) = (lookup k m ≡ none) × Distinct m

-- An order of the entries of a map: every key once, with its value.
pub record IsOrder (m arranged : List (Text × ℕ)) : Type 0 where
  pub distinct : Distinct arranged
  pub same : (k : Text) → lookup k arranged ≡ lookup k m

count_at-insert :
    (j k : Text) (n : ℕ) (m : List (Text × ℕ))
    → count_at j (insert k n m) ≡ (if text_eq k j then n else count_at j m)
unfolding count_at
count_at-insert j k n m = ground (arith, lookup-insert j k n m)

count_at-count_into :
    (j lower intent : Text) (kws : List String) (m : List (Text × ℕ))
    → count_at j (count_into lower intent kws m)
      ≡ count_at j m + (if text_eq intent j then hits lower kws else 0)
unfolding count_into hits
count_at-count_into j lower intent [] m = ground arith
count_at-count_into j lower intent (kw ∷ kws) m = elim (Bool-cases (contains lower (bytes kw))) [
  | inl e ↦ rw e (
      ground (
        arith,
        text_eq_iff intent j,
        count_at-count_into j lower intent kws (insert intent (suc (count_at intent m)) m),
        count_at-insert j intent (suc (count_at intent m)) m,
      ))
  | inr e ↦ rw e (ground (arith, count_at-count_into j lower intent kws m))
]

no_scores :
    (j : Text)
    → count_at j (
        (bytes "technical", 0) ∷ (bytes "academic", 0) ∷ (bytes "code", 0) ∷ (bytes "news", 0) ∷ [])
      ≡ 0
unfolding count_at lookup
no_scores j = ground arith

-- The scores that the six loops leave are the numbers of keywords that occur.
pub count_at-intent_scores :
    (j lower : Text) → count_at j (intent_scores lower) ≡ intent_score lower j
unfolding intent_scores intent_score
count_at-intent_scores j lower =
    rw
      (
        count_at-count_into j lower (bytes "package"),
        count_at-count_into j lower (bytes "video"),
        count_at-count_into j lower (bytes "news"),
        count_at-count_into j lower (bytes "code"),
        count_at-count_into j lower (bytes "academic"),
        count_at-count_into j lower (bytes "technical"),
        no_scores j,
      )
      (omega arith)

count_at_same :
    (j : Text) (m n : List (Text × ℕ)) → lookup j m ≡ lookup j n → count_at j m ≡ count_at j n
unfolding count_at
count_at_same j m n h = rw (h, count_at) refl

-- The greatest score of the entries, or the given one if none exceeds it.
abbrev best : ℕ → List (Text × ℕ) → ℕ
best n [] = n
best n ((k, c) ∷ m) = if ltb n c then best c m else best n m

best_ge : (n : ℕ) (m : List (Text × ℕ)) → n ≤ best n m
best_ge n [] = omega arith
best_ge n ((k, c) ∷ m) = ground (arith, best_ge c m, best_ge n m)

count_at_le : (j : Text) (n : ℕ) (m : List (Text × ℕ)) → count_at j m ≤ best n m
unfolding count_at lookup
count_at_le j n [] = ground arith
count_at_le j n ((k, c) ∷ m) =
    ground (arith, count_at_le j c m, count_at_le j n m, best_ge c m, best_ge n m)

-- One more entry in front, whose score is c.
abbrev Chosen : ℕ → Text → List (Text × ℕ) → Text → ℕ → Type 0
Chosen n selected m s top = ((s ≡ selected) × (top ≡ n)) ⊎ ((count_at s m ≡ top) × (n < top))

module _ (k : Text) (c : ℕ) (m : List (Text × ℕ)) where
  count_at-head : count_at k ((k, c) ∷ m) ≡ c
  unfolding count_at lookup
  count_at-head = ground (arith, text_eq_self k)

  count_at-tail :
      (s : Text) → lookup k m ≡ none → 0 < count_at s m → count_at s ((k, c) ∷ m) ≡ count_at s m
  unfolding count_at lookup
  count_at-tail s d h = ground (arith, text_eq_iff k s, d)

  raised :
      (n : ℕ) (selected s : Text) (top : ℕ)
      → lookup k m ≡ none
      → n < c
      → Chosen c k m s top
      → Chosen n selected ((k, c) ∷ m) s top
  raised n selected s top d l (inl h) =
      inr (rw h.0 (ground (arith, count_at-head, h.1)), ground (arith, h.1, l))
  raised n selected s top d l (inr h) =
      inr (ground (arith, count_at-tail s d, h.0, h.1), ground (arith, h.1, l))

  kept :
      (n : ℕ) (selected s : Text) (top : ℕ)
      → lookup k m ≡ none
      → Chosen n selected m s top
      → Chosen n selected ((k, c) ∷ m) s top
  kept n selected s top d (inl h) = inl h
  kept n selected s top d (inr h) = inr (ground (arith, count_at-tail s d, h.0, h.1), h.1)

-- Either nothing exceeds the score so far, or the selected intent has the greatest one.
strongest_lem :
    (n : ℕ) (selected : Text) (m : List (Text × ℕ))
    → Distinct m
    → Chosen n selected m (strongest n selected m) (best n m)
unfolding strongest
strongest_lem n selected [] d = inl (refl, refl)
strongest_lem n selected ((k, c) ∷ m) d = elim (Bool-cases (ltb n c)) [
  | inl e ↦ rw e (
      raised k c m n selected (strongest c k m) (best c m) d.0 (ground (arith, e))
        (strongest_lem c k m d.1))
  | inr e ↦ rw e (
      kept k c m n selected (strongest n selected m) (best n m) d.0
        (strongest_lem n selected m d.1))
]

-- For any order in which the map of scores is visited, no intent has more keywords in the lowered
-- query than the selected one; and if no keyword of any intent occurs, the selected one is
-- "general".
pub classify_intent_lem :
    (rt : Runtime) (query : Text)
    → IsOrder (intent_scores (rt.to_lower query)) (rt.arrange (intent_scores (rt.to_lower query)))
    → ((j : Text)
        → intent_score (rt.to_lower query) j
          ≤ intent_score (rt.to_lower query) (classify_intent rt query))
      × (((j : Text) → intent_score (rt.to_lower query) j ≡ 0)
          → classify_intent rt query ≡ bytes "general")
unfolding classify_intent
classify_intent_lem rt query h =
    let c =
      strongest_lem 0 (bytes "general") (rt.arrange (intent_scores (rt.to_lower query)))
        h.distinct in
    (λ j. bounded j c, λ none_hit. general none_hit c)
  where
    lower : Text
    lower = rt.to_lower query

    arranged : List (Text × ℕ)
    arranged = rt.arrange (intent_scores (rt.to_lower query))

    selected : Text
    selected = strongest 0 (bytes "general") (rt.arrange (intent_scores (rt.to_lower query)))

    score : (j : Text) → count_at j arranged ≡ intent_score lower j
    score j =
        count_at_same j arranged (intent_scores lower) (h.same j) ∙ count_at-intent_scores j lower

    bounded :
        (j : Text)
        → Chosen 0 (bytes "general") arranged selected (best 0 arranged)
        → intent_score lower j ≤ intent_score lower selected
    bounded j (inl c) = omega (arith, c.1, score j, count_at_le j 0 arranged)
    bounded j (inr c) = omega (arith, c.0, score j, score selected, count_at_le j 0 arranged)

    general :
        ((j : Text) → intent_score lower j ≡ 0)
        → Chosen 0 (bytes "general") arranged selected (best 0 arranged)
        → selected ≡ bytes "general"
    general z (inl c) = c.0
    general z (inr c) = absurd (omega (arith, c.0, c.1, score selected, z selected))
