-- ===== src/Connectors/LocalIndex/Terms.antt =====
-- The terms of a query that the local index looks for.
use source_rudder.Prelude.{
  ℕ, ◌≤◌, ◌≡◌, refl, inl, inr, false, ◌||◌, List, [], ◌∷◌, ◌++◌, arith, ltb, ◌==◌, Bool-cases,
  length, length-append, All, All-append, Text, text_eq, text_eq_iff,
}
use source_rudder.Normalization.{seen_before, NoRepeat}
use source_rudder.Connectors.LocalIndex.{IndexEnvironment, add_terms, local_index_terms}

seen_before-append_one :
    (k t : Text) (ts : List Text) → seen_before k (ts ++ t ∷ []) ≡ (seen_before k ts || text_eq t k)
unfolding seen_before
seen_before-append_one k t [] = ground arith
seen_before-append_one k t (j ∷ js) = ground (arith, seen_before-append_one k t js)

NoRepeat-append_one :
    (t : Text) (ts : List Text) → seen_before t ts ≡ false → NoRepeat ts → NoRepeat (ts ++ t ∷ [])
unfolding seen_before
NoRepeat-append_one t [] h n = (refl, tt)
NoRepeat-append_one t (j ∷ js) h n = (
  ground (arith, seen_before-append_one j t js, text_eq_iff j t, text_eq_iff t j, n.0),
  NoRepeat-append_one t js (ground (arith, h)) n.1,
)

-- Terms that the loop may hold.
pub record Bounded (count : Text → ℕ) (terms : List Text) : Type 0 where
  few : length terms ≤ 32
  distinct : NoRepeat terms
  short : All (λ t. count t ≤ 64) terms

add_terms-Bounded :
    (count : Text → ℕ) (terms fields : List Text)
    → Bounded count terms
    → Bounded count (add_terms count terms fields)
unfolding add_terms
add_terms-Bounded count terms [] h = h
add_terms-Bounded count terms (f ∷ fs) h =
    elim (Bool-cases (ltb 64 (count f) || (length terms == 32))) [
      | inl a ↦ rw a (add_terms-Bounded count terms fs h)
      | inr a ↦ elim (Bool-cases (seen_before f terms)) [
        | inl b ↦ rw (a, b) (add_terms-Bounded count terms fs h)
        | inr b ↦
            rw (a, b)
              (add_terms-Bounded count (terms ++ f ∷ []) fs (record {
                few = ground (arith, a, h.few, length-append terms (f ∷ []));
                distinct = NoRepeat-append_one f terms b h.distinct;
                short =
                    All-append (λ t. count t ≤ 64) terms (f ∷ []) h.short (ground (arith, a), tt);
              }))
      ]
    ]

-- A query has at most 32 terms, all different, of at most 64 runes.
pub local_index_terms-Bounded :
    (env : IndexEnvironment) (query : Text)
    → Bounded env.runes.rune_count (local_index_terms env query)
unfolding local_index_terms
local_index_terms-Bounded env query =
    add_terms-Bounded env.runes.rune_count [] (env.fields (env.runes.to_lower query))
      (record { few = omega arith; distinct = tt; short = tt })
