-- ===== src/Connectors/Api/Packages.antt =====
-- internal/connectors/npm.go, nuget.go, dockerhub.go and stackoverflow.go.
use source_rudder.Prelude.{
  Bool, false, none, some, List, [], ◌∷◌, ◌++◌, if◌then◌else◌, ℤ, pos, Text, bytes, is_empty, join,
}
use source_rudder.Types.{SearchRequest, SearchResultItem, SearchResponse}
use source_rudder.Cache.{Service}
use source_rudder.Connectors.Web.{get_max_results}
use source_rudder.Connectors.Api.{
  ApiAnswer, ApiEnvironment, api_results, api_response, key_for, ApiSearch, npm, nuget, dockerhub,
  stackoverflow, through_cache, show_int,
}

pub record NpmPackage : Type 0 where
  pub name : Text
  pub description : Text
  pub homepage : Text
  pub score : ℤ

pub record NuGetPackage : Type 0 where
  pub id : Text
  pub description : Text
  pub title : Text
  pub project_url : Text
  pub authors : List Text
  pub tags : List Text
  pub total_downloads : ℤ

pub record DockerRepository : Type 0 where
  pub repo_name : Text
  pub namespace : Text
  pub short_description : Text
  pub star_count : ℤ
  pub is_official : Bool

pub record Question : Type 0 where
  pub question_id : ℤ
  pub title : Text
  pub link : Text
  pub score : ℤ
  pub answer_count : ℤ
  pub tags : List Text
  pub display_name : Text
  -- Seconds since 1970.
  pub creation_date : ℤ

-- The registries, and the requests that the connectors send them.
pub record RegistryEnvironment : Type 0 where
  pub api : ApiEnvironment
  pub npm_url : Text
  pub ask_npm : Text → ApiAnswer (List NpmPackage)
  pub ask_nuget : Text → ApiAnswer (List NuGetPackage)
  pub docker_url : Text
  pub ask_docker : Text → ApiAnswer (List DockerRepository)
  pub stack_url : Text
  pub ask_stack : Text → ApiAnswer (List Question)
  -- time.Unix of a number of seconds.
  pub unix_time : ℤ → ℤ

unfoldable pub npm_items : List NpmPackage → List SearchResultItem
npm_items [] = []
npm_items (p ∷ ps) =
    record {
      title = p.name;
      url =
          if is_empty p.homepage
          then bytes "https://www.npmjs.com/package/" ++ p.name
          else p.homepage;
      snippet = p.description;
      source = bytes "npm";
      engine = [];
      type = bytes "package";
      score = p.score;
      published_at = none;
      author = p.name;
      tags = [];
      citation_id = bytes "npm:" ++ p.name;
      canonical_url = [];
    }
    ∷ npm_items ps

unfoldable pub nuget_items : List NuGetPackage → List SearchResultItem
nuget_items [] = []
nuget_items (p ∷ ps) =
    record {
      title = if is_empty p.title then p.id else p.title;
      url = p.project_url;
      snippet =
          if is_empty p.description
          then bytes "Downloads: " ++ show_int p.total_downloads
          else p.description;
      source = bytes "nuget";
      engine = [];
      type = bytes "package";
      score = p.total_downloads;
      published_at = none;
      author = join p.authors (bytes ", ");
      tags = p.tags;
      citation_id = bytes "nuget:" ++ p.id;
      canonical_url = [];
    }
    ∷ nuget_items ps

unfoldable pub docker_items : List DockerRepository → List SearchResultItem
docker_items [] = []
docker_items (r ∷ rs) =
    let full_name =
      if r.is_official then r.repo_name else r.namespace ++ (bytes "/" ++ r.repo_name) in
    let url_path = if r.is_official then bytes "_" else bytes "r" in
    record {
      title = full_name;
      url = bytes "https://hub.docker.com/" ++ (url_path ++ (bytes "/" ++ full_name));
      snippet = r.short_description;
      source = bytes "dockerhub";
      engine = [];
      type = bytes "repository";
      score = r.star_count;
      published_at = none;
      author = r.namespace;
      tags = [];
      citation_id = bytes "dockerhub:" ++ full_name;
      canonical_url = [];
    }
    ∷ docker_items rs

unfoldable pub question_items : (ℤ → ℤ) → List Question → List SearchResultItem
question_items unix_time [] = []
question_items unix_time (q ∷ qs) =
    record {
      title = q.title;
      url = q.link;
      snippet =
          bytes "Score: " ++ (show_int q.score ++ (bytes ", Answers: " ++ show_int q.answer_count));
      source = bytes "stackoverflow";
      engine = [];
      type = bytes "question";
      score = q.score;
      published_at = some (unix_time q.creation_date);
      author = q.display_name;
      tags = q.tags;
      citation_id = bytes "stackoverflow:" ++ show_int q.question_id;
      canonical_url = [];
    }
    ∷ question_items unix_time qs

module _ (env : RegistryEnvironment) where
  -- The trimmed query, escaped, and the number of results that is asked for.
  unfoldable pub escaped : SearchRequest → Text
  escaped req = env.api.query_escape (env.api.trim_space req.query)

  unfoldable pub asked_for : SearchRequest → Text
  asked_for req = show_int (get_max_results req.max_results (pos 10))

  unfoldable pub npm_afresh : SearchRequest → SearchResponse
  npm_afresh req =
      (api_response (bytes "npm") req.query (
        api_results false npm_items (
          env.ask_npm (
            env.npm_url
            ++ (bytes "/-/v1/search?text="
                ++ (escaped req ++ (bytes "&size=" ++ asked_for req))))))).1

  unfoldable pub nuget_afresh : SearchRequest → SearchResponse
  nuget_afresh req =
      (api_response (bytes "nuget") req.query (
        api_results false nuget_items (
          env.ask_nuget (
            bytes "https://azuresearch-usnc.nuget.org/query?searchTerm="
            ++ (escaped req
                ++ (bytes "&take=" ++ (asked_for req ++ bytes "&semVerLevel=2.0.0"))))))).1

  unfoldable pub docker_afresh : SearchRequest → SearchResponse
  docker_afresh req =
      (api_response (bytes "dockerhub") req.query (
        api_results false docker_items (
          env.ask_docker (
            env.docker_url
            ++ (bytes "/v2/search/repositories?query="
                ++ (escaped req ++ (bytes "&page_size=" ++ asked_for req))))))).1

  -- Values.Encode sorts the parameters by name.
  unfoldable pub stack_afresh : SearchRequest → SearchResponse
  stack_afresh req =
      (api_response (bytes "stackoverflow") req.query (
        api_results false (question_items env.unix_time) (
          env.ask_stack (
            env.stack_url
            ++ (bytes "/search/advanced?order=desc&pagesize="
                ++ (asked_for req
                    ++ (bytes "&site=stackoverflow&sort=relevance&q=" ++ escaped req))))))).1

  unfoldable pub registry_key : ApiSearch → SearchRequest → Text
  registry_key search req = key_for env.api search (env.api.trim_space req.query)

  unfoldable pub npm_search : Service → SearchRequest → ℤ → ℤ → ℤ → Service × SearchResponse
  npm_search svc req now later written =
      through_cache env.api svc (registry_key npm req) (npm_afresh req) now later written

  unfoldable pub nuget_search : Service → SearchRequest → ℤ → ℤ → ℤ → Service × SearchResponse
  nuget_search svc req now later written =
      through_cache env.api svc (registry_key nuget req) (nuget_afresh req) now later written

  unfoldable pub docker_search : Service → SearchRequest → ℤ → ℤ → ℤ → Service × SearchResponse
  docker_search svc req now later written =
      through_cache env.api svc (registry_key dockerhub req) (docker_afresh req) now later written

  unfoldable pub stack_search : Service → SearchRequest → ℤ → ℤ → ℤ → Service × SearchResponse
  stack_search svc req now later written =
      through_cache env.api svc (registry_key stackoverflow req) (stack_afresh req) now later
        written
