-- ===== src/Connectors/Api/Tests.antt =====
-- Two searches for pull requests of the same words, one for those that are open and one for those
-- that are closed.
use source_rudder.Prelude.{
  ◌≡◌, refl, ap, true, false, Option, none, some, [], ◌∷◌, arith, pos, ◌+ℤ◌, ◌*ℤ◌, ◌<ℤ◌, Text,
  bytes, lookup,
}
use source_rudder.Types.{SearchRequest, SearchResponse, ok}
use source_rudder.Cache.{read, new_service, get}
use source_rudder.Cache.View.{IsValid}
use source_rudder.Connectors.Api.{replied, npm}
use source_rudder.Connectors.Api.Keys.{hashed_text_inj}
use source_rudder.Connectors.Api.GitHub.{
  published_at_of, git_hub_items, do_git_hub_request, state_of, sanitize_query, issues_url,
  api_url_of, GitHubEnvironment, pr, git_hub_afresh, git_hub_key, search_pr,
}
use source_rudder.Connectors.Api.Again.{search_pr_again}

inj_example : (bytes "left-pad" ≡ bytes "left-pad") × (npm ≡ npm)
inj_example = hashed_text_inj (bytes "left-pad") (bytes "left-pad") npm npm refl

abbrev asked : Text → SearchRequest
asked state = record {
  query = bytes "fix";
  sources = [];
  max_results = pos 0;
  language = [];
  safe_search = false;
  time_range = [];
  format = [];
  cache_policy = [];
  deep_research = false;
  filters = (bytes "state", state) ∷ [];
}

-- The answer names the URL that was requested.
abbrev answering : (Text → Option SearchResponse) → GitHubEnvironment
answering unmarshal = record {
  api = record {
    sha256_hex = λ s. s;
    trim_space = λ s. s;
    query_escape = λ s. s;
    marshal = λ _. some (bytes "{}");
    unmarshal = unmarshal;
  };
  base_url = bytes "https://api.github.com";
  parse_rfc3339 = λ _. none;
  ask = λ url. replied 200 (
      ok (
        record {
          full_name = [];
          html_url = url;
          description = [];
          score = pos 1;
          updated_at = [];
          created_at = [];
          owner_login = [];
          title = bytes "Fix";
        }
        ∷ []));
}

abbrev environment : GitHubEnvironment
environment = answering λ _. some (git_hub_afresh (answering λ _. none) pr (asked (bytes "open")))

found_once :
    git_hub_afresh (answering λ _. none) pr (asked (bytes "open"))
    ≡ git_hub_afresh environment pr (asked (bytes "open"))
unfolding git_hub_afresh api_url_of issues_url sanitize_query state_of do_git_hub_request
    git_hub_items published_at_of
found_once = refl

empty-IsValid : IsValid (new_service (pos 60))
unfolding new_service
empty-IsValid = record { distinct = tt; keyed = tt }

nothing_cached :
    (get
      (new_service (pos 60))
      (git_hub_key environment pr (asked (bytes "open")))
      (pos 1)
      (pos 1)).1
    ≡ none
unfolding get read new_service lookup
nothing_cached = refl

still_alive : pos 3 <ℤ pos 2 +ℤ (new_service (pos 60)).ttl
unfolding new_service ◌+ℤ◌ ◌*ℤ◌
still_alive = omega arith

again_pr_example :
    (search_pr environment
      (search_pr environment
        (new_service (pos 60))
        (asked (bytes "open"))
        (pos 1)
        (pos 1)
        (pos 2)).0
      (asked (bytes "closed"))
      (pos 3)
      (pos 3)
      (pos 4)).1
    ≡ record (git_hub_afresh environment pr (asked (bytes "open"))) { cached = true }
again_pr_example =
    search_pr_again environment (asked (bytes "open")) (asked (bytes "closed"))
      (new_service (pos 60)) (pos 1) (pos 1) (pos 2) (pos 3) (pos 3) (pos 4) (bytes "{}") refl
      empty-IsValid nothing_cached refl (ap some found_once) (omega arith) (omega arith) still_alive
