-- ===== src/Mcp/Wire.antt =====
-- normalizeSearchResponse of internal/mcp/tools.go: what search tools send has no null arrays.
pub mod Stable
use source_rudder.Prelude.{Option, none, some, [], Slice}
use source_rudder.Types.{SearchResponse, no_response}

-- A nil slice is replaced by an empty one.
abbrev pub made {ℓ} : {A : Type ℓ} → Slice A → Slice A
made none = some []
made (some xs) = some xs

-- `none` is the nil pointer.
unfoldable pub normalize_search_response : Option SearchResponse → SearchResponse
normalize_search_response none = record no_response { results = some [] }
normalize_search_response (some resp) = record resp {
  results = made resp.results;
  sources_used = made resp.sources_used;
  warnings = made resp.warnings;
  errors = made resp.errors;
  key_findings = made resp.key_findings;
}
