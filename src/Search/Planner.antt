-- ===== src/Search/Planner.antt =====
-- internal/search/planner.go. strings.ToLower, and the order in which a range loop visits a map,
-- are parameters.
pub mod Intent
use source_rudder.Prelude.{
  count_at, ℕ, suc, String, not, List, [], ◌∷◌, map, ltb, if◌then◌else◌, length, ℤ, pos, ltb_ℤ,
  Text, bytes, text_eq, is_empty, contains, insert,
}
use source_rudder.Types.{SearchRequest}

pub record Runtime : Type 0 where
  pub to_lower : Text → Text
  pub arrange : List (Text × ℕ) → List (Text × ℕ)

pub record SearchPlan : Type 0 where
  pub query : Text
  pub connectors : List Text
  pub max_results : ℤ
  pub time_range : Text
  pub intent : Text
  pub priority : ℕ
  pub strategy : Text

abbrev pub technical_keywords : List String
technical_keywords =
    "api" ∷ "error" ∷ "bug" ∷ "code" ∷ "function" ∷ "class" ∷ "debug" ∷ "sdk" ∷ "library"
    ∷ "framework" ∷ "module" ∷ "package" ∷ "dependency" ∷ "install" ∷ "config" ∷ "docker"
    ∷ "kubernetes" ∷ "deploy" ∷ "ci/cd" ∷ "pipeline" ∷ "database" ∷ "query" ∷ "sql" ∷ "nosql"
    ∷ "cache" ∷ "queue" ∷ "message" ∷ []

abbrev pub academic_keywords : List String
academic_keywords =
    "paper" ∷ "research" ∷ "study" ∷ "academic" ∷ "journal" ∷ "conference" ∷ "publication"
    ∷ "citation" ∷ "doi" ∷ "arxiv" ∷ "preprint" ∷ "thesis" ∷ "dissertation" ∷ "abstract"
    ∷ "methodology" ∷ "results" ∷ "conclusion" ∷ []

abbrev pub code_keywords : List String
code_keywords =
    "github" ∷ "repo" ∷ "stackoverflow" ∷ "npm" ∷ "pypi" ∷ "nuget" ∷ "crates.io" ∷ "packagist"
    ∷ "gem" ∷ "pip" ∷ "npmjs" ∷ "stackoverflow.com" ∷ "repository" ∷ "commit" ∷ "branch"
    ∷ "pull request" ∷ "issue" ∷ "stack trace" ∷ "exception" ∷ "runtime" ∷ []

abbrev pub news_keywords : List String
news_keywords =
    "news" ∷ "latest" ∷ "today" ∷ "breaking" ∷ "announcement" ∷ "release" ∷ "launch" ∷ "update"
    ∷ "recent" ∷ "trending" ∷ "viral" ∷ "headline" ∷ []

abbrev pub youtube_keywords : List String
youtube_keywords = "youtube" ∷ "video" ∷ "tutorial" ∷ "watch" ∷ "channel" ∷ "invidious" ∷ []

abbrev pub package_keywords : List String
package_keywords =
    "nuget" ∷ "npm" ∷ "pypi" ∷ "pip" ∷ "gem" ∷ "cargo" ∷ "maven" ∷ "gradle" ∷ "packagist" ∷ "crates"
    ∷ []

-- The loop over the keywords of one intent.
unfoldable pub count_into : Text → Text → List String → List (Text × ℕ) → List (Text × ℕ)
count_into lower intent [] m = m
count_into lower intent (kw ∷ kws) m =
    count_into lower intent kws
      (if contains lower (bytes kw) then insert intent (suc (count_at intent m)) m else m)

-- The map after the six loops.
unfoldable pub intent_scores : Text → List (Text × ℕ)
intent_scores lower =
    let m0 =
      (bytes "technical", 0) ∷ (bytes "academic", 0) ∷ (bytes "code", 0) ∷ (bytes "news", 0) ∷ [] in
    let m1 = count_into lower (bytes "technical") technical_keywords m0 in
    let m2 = count_into lower (bytes "academic") academic_keywords m1 in
    let m3 = count_into lower (bytes "code") code_keywords m2 in
    let m4 = count_into lower (bytes "news") news_keywords m3 in
    let m5 = count_into lower (bytes "video") youtube_keywords m4 in
    count_into lower (bytes "package") package_keywords m5

-- The loop that keeps the first intent of a strictly greater score.
unfoldable pub strongest : ℕ → Text → List (Text × ℕ) → Text
strongest max_score selected [] = selected
strongest max_score selected ((intent, score) ∷ m) =
    if ltb max_score score then strongest score intent m else strongest max_score selected m

unfoldable pub select_sources : Text → SearchRequest → List Text
select_sources intent req =
    if ltb 0 (length req.sources)
    then req.sources
    else if text_eq intent (bytes "code")
    then bytes "github" ∷ bytes "stackoverflow" ∷ []
    else if text_eq intent (bytes "technical")
    then bytes "web" ∷ bytes "stackoverflow" ∷ []
    else if text_eq intent (bytes "academic")
    then bytes "academic" ∷ []
    else if text_eq intent (bytes "news")
    then bytes "web" ∷ []
    else if text_eq intent (bytes "video")
    then bytes "youtube" ∷ []
    else if text_eq intent (bytes "package")
    then bytes "nuget" ∷ bytes "npm" ∷ bytes "pypi" ∷ []
    else bytes "web" ∷ []

unfoldable pub resolve_max_results : SearchRequest → ℤ
resolve_max_results req = if ltb_ℤ (pos 0) req.max_results then req.max_results else pos 10

unfoldable pub resolve_time_range : SearchRequest → Text → Text
resolve_time_range req intent =
    if not (is_empty req.time_range)
    then req.time_range
    else if text_eq intent (bytes "news")
    then bytes "week"
    else []

unfoldable pub resolve_priority : Text → ℕ
resolve_priority intent =
    if text_eq intent (bytes "code")
    then 1
    else if text_eq intent (bytes "technical")
    then 2
    else if text_eq intent (bytes "academic")
    then 3
    else if text_eq intent (bytes "news")
    then 2
    else 4

unfoldable pub resolve_strategy : Text → List Text → Text
resolve_strategy intent sources =
    if ltb 2 (length sources) then bytes "parallel" else bytes "single"

module _ (rt : Runtime) where
  unfoldable pub classify_intent : Text → Text
  classify_intent query =
      strongest 0 (bytes "general") (rt.arrange (intent_scores (rt.to_lower query)))

  unfoldable pub plan : Text → SearchRequest → SearchPlan
  plan query req =
      let intent = classify_intent query in
      let sources = select_sources intent req in
      record {
        query = query;
        connectors = sources;
        max_results = resolve_max_results req;
        time_range = resolve_time_range req intent;
        intent = intent;
        priority = resolve_priority intent;
        strategy = resolve_strategy intent sources;
      }
