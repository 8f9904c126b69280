-- ===== src/Mcp/Wire/Stable.antt =====
-- The wire contract that normalizeSearchResponse establishes.
use source_rudder.Prelude.{◌≡◌, refl, none, some, Slice}
use source_rudder.Types.{SearchResponse}
use source_rudder.Mcp.Wire.{made, normalize_search_response}

-- A slice that is not nil.
abbrev pub Present {ℓ} : {A : Type ℓ} → Slice A → Type 0
Present none = ⊥
Present (some xs) = Unit

pub record IsStable (r : SearchResponse) : Type 0 where
  pub results : Present r.results
  pub sources_used : Present r.sources_used
  pub warnings : Present r.warnings
  pub errors : Present r.errors
  pub key_findings : Present r.key_findings

made-Present {ℓ} : {A : Type ℓ} (s : Slice A) → Present (made s)
made-Present none = tt
made-Present (some xs) = tt

made-made {ℓ} : {A : Type ℓ} (s : Slice A) → Present s → made s ≡ s
made-made none h = absurd h
made-made (some xs) h = refl

-- Whatever response a connector returned, its normalization has no nil array.
pub normalize-IsStable : (resp : SearchResponse) → IsStable (normalize_search_response (some resp))
unfolding normalize_search_response
normalize-IsStable resp = record {
  results = made-Present resp.results;
  sources_used = made-Present resp.sources_used;
  warnings = made-Present resp.warnings;
  errors = made-Present resp.errors;
  key_findings = made-Present resp.key_findings;
}
