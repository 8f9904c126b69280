-- ===== src/Connectors/Api/GitHub.antt =====
-- internal/connectors/github.go: the three searches of the GitHub connector.
use source_rudder.Prelude.{
  true, Option, none, some, List, [], ◌∷◌, ◌++◌, if◌then◌else◌, ℤ, pos, Text, bytes, is_empty,
  lookup,
}
use source_rudder.Types.{SearchRequest, SearchResultItem, SearchResponse, Failure}
use source_rudder.Cache.{Service}
use source_rudder.Connectors.Web.{get_max_results}
use source_rudder.Connectors.Api.{
  ApiAnswer, ApiEnvironment, api_results, api_response, key_for, ApiSearch, github_repo, github_pr,
  github_issue, through_cache, show_int,
}

-- What is decoded of an item; the score and the dates are those that JSON and time.Parse give.
pub record GitHubItem : Type 0 where
  pub full_name : Text
  pub html_url : Text
  pub description : Text
  pub score : ℤ
  pub updated_at : Text
  pub created_at : Text
  pub owner_login : Text
  pub title : Text

pub data GitHubKind : Type 0 where
  repo pr issue : GitHubKind

abbrev pub kind_text : GitHubKind → Text
kind_text repo = bytes "repo"
kind_text pr = bytes "pr"
kind_text issue = bytes "issue"

abbrev pub search_of : GitHubKind → ApiSearch
search_of repo = github_repo
search_of pr = github_pr
search_of issue = github_issue

pub record GitHubEnvironment : Type 0 where
  pub api : ApiEnvironment
  pub base_url : Text
  pub parse_rfc3339 : Text → Option ℤ
  -- The request that Search and its siblings send, with the headers of doGitHubRequest.
  pub ask : Text → ApiAnswer (List GitHubItem)

module _ (env : GitHubEnvironment) where
  unfoldable pub sanitize_query : Text → Text
  sanitize_query q = env.api.query_escape (env.api.trim_space q)

  unfoldable pub published_at_of : GitHubItem → Option ℤ
  published_at_of item = elim (env.parse_rfc3339 item.updated_at) [
    | some t ↦ some t
    | none ↦ env.parse_rfc3339 item.created_at
  ]

  abbrev pub title_of : GitHubKind → GitHubItem → Text
  title_of repo item = item.full_name
  title_of pr item = item.title
  title_of issue item = item.title

  abbrev pub snippet_of : GitHubKind → GitHubItem → Text
  snippet_of repo item = item.description
  snippet_of pr item = item.title
  snippet_of issue item = item.title

  unfoldable pub git_hub_items : GitHubKind → List GitHubItem → List SearchResultItem
  git_hub_items kind [] = []
  git_hub_items kind (item ∷ items) =
      record {
        title = title_of kind item;
        url = item.html_url;
        snippet = snippet_of kind item;
        source = bytes "github";
        engine = [];
        type = kind_text kind;
        score = item.score;
        published_at = published_at_of item;
        author = item.owner_login;
        tags = [];
        citation_id = bytes "github:" ++ item.full_name;
        canonical_url = [];
      }
      ∷ git_hub_items kind items

  unfoldable pub do_git_hub_request : Text → GitHubKind → List SearchResultItem × Option Failure
  do_git_hub_request api_url kind = api_results true (git_hub_items kind) (env.ask api_url)

  -- The URL of a search for repositories.
  unfoldable pub repositories_url : SearchRequest → Text
  repositories_url req =
      env.base_url
      ++ (bytes "/search/repositories?q="
          ++ (sanitize_query req.query
              ++ (bytes "&per_page="
                  ++ (show_int (get_max_results req.max_results (pos 10))
                      ++ (if is_empty req.language
                          then []
                          else bytes "&language=" ++ env.api.query_escape req.language)))))

  -- The filter of that name, or "open".
  unfoldable pub state_of : SearchRequest → Text
  state_of req = elim (lookup (bytes "state") req.filters) [ none ↦ bytes "open" | some s ↦ s ]

  -- The URL of a search for pull requests or issues.
  unfoldable pub issues_url : Text → SearchRequest → Text
  issues_url kind req =
      env.base_url
      ++ (bytes "/search/issues?q="
          ++ (sanitize_query req.query
              ++ (bytes "+is:"
                  ++ (kind
                      ++ (bytes "&state="
                          ++ (state_of req
                              ++ (bytes "&per_page="
                                  ++ show_int (get_max_results req.max_results (pos 10)))))))))

  unfoldable pub api_url_of : GitHubKind → SearchRequest → Text
  api_url_of repo req = repositories_url req
  api_url_of pr req = issues_url (bytes "pr") req
  api_url_of issue req = issues_url (bytes "issue") req

  -- The response of a search that is not answered from the cache.
  unfoldable pub git_hub_afresh : GitHubKind → SearchRequest → SearchResponse
  git_hub_afresh kind req =
      (api_response (bytes "github") req.query (do_git_hub_request (api_url_of kind req) kind)).1

  unfoldable pub git_hub_key : GitHubKind → SearchRequest → Text
  git_hub_key kind req = key_for env.api (search_of kind) (sanitize_query req.query)

  unfoldable pub search_repositories :
      Service → SearchRequest → ℤ → ℤ → ℤ → Service × SearchResponse
  search_repositories svc req now later written =
      through_cache env.api svc (git_hub_key repo req) (git_hub_afresh repo req) now later written

  unfoldable pub search_pr : Service → SearchRequest → ℤ → ℤ → ℤ → Service × SearchResponse
  search_pr svc req now later written =
      through_cache env.api svc (git_hub_key pr req) (git_hub_afresh pr req) now later written

  unfoldable pub search_issue : Service → SearchRequest → ℤ → ℤ → ℤ → Service × SearchResponse
  search_issue svc req now later written =
      through_cache env.api svc (git_hub_key issue req) (git_hub_afresh issue req) now later written
