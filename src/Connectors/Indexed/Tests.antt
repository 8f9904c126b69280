-- ===== src/Connectors/Indexed/Tests.antt =====
-- An index that finds a post twice, and two candidates for the same image.
use source_rudder.Prelude.{ℕ, false, none, some, [], ◌∷◌, elems, pos, bytes, text_eq}
use source_rudder.Types.{SearchRequest, ok}
use source_rudder.Connectors.Web.{get_max_results, unparsed}
use source_rudder.Connectors.Api.{replied}
use source_rudder.Connectors.Indexed.{IndexedResult}
use source_rudder.Connectors.Indexed.Limit.{reddit_afresh-Posts}
use source_rudder.Connectors.Indexed.Reddit.{RedditEnvironment, reddit_afresh}
use source_rudder.Connectors.Indexed.Reddit.Posts.{Posts}
use source_rudder.Connectors.Indexed.Images.{
  RankedImageCandidate, sort_candidates, deduplicate_image_candidates,
}
use source_rudder.Connectors.Indexed.Images.Results.{
  OnePerImage, deduplicate_image_candidates-OnePerImage,
}

abbrev post : IndexedResult
post = record {
  title = bytes "A post";
  url = bytes "https://old.reddit.com/r/golang/comments/abc123";
  content = [];
  source = [];
  engine = [];
  img_src = [];
  thumbnail_src = [];
  parsed_url = unparsed;
  published_date = [];
}

abbrev environment : RedditEnvironment
environment = record {
  index = record {
    to_lower = λ s. s;
    trim_space = λ s. s;
    cache_key = λ query _ _ _. query;
    ask = λ _. replied 200 (ok (post ∷ post ∷ [], []));
    marshal = λ _. none;
    unmarshal = λ _. none;
    parse_time = λ _ _. none;
  };
  parse_url = λ _. some (record {
    scheme = bytes "https";
    has_user = false;
    port = [];
    hostname = bytes "old.reddit.com";
    escaped_path = bytes "/r/golang/comments/abc123";
    path = bytes "/r/golang/comments/abc123";
  });
  equal_fold = text_eq;
  sort_strings = λ ss. ss;
}

abbrev asked : SearchRequest
asked = record {
  query = bytes "go";
  sources = [];
  max_results = pos 5;
  language = [];
  safe_search = false;
  time_range = [];
  format = [];
  cache_policy = [];
  deep_research = false;
  filters = [];
}

posts_example :
    Posts environment
      (get_max_results asked.max_results (pos 10))
      0
      (elems (reddit_afresh environment asked).results)
posts_example = reddit_afresh-Posts environment asked

abbrev candidate : ℕ → ℕ → RankedImageCandidate
candidate relevance i = record {
  item = post;
  image_url = bytes "https://a/x.png";
  canonical_url = bytes "https://a/x.png";
  relevance = relevance;
  index = i;
}

per_image_example :
    OnePerImage
      (candidate 1 0 ∷ candidate 10 1 ∷ [])
      (deduplicate_image_candidates (sort_candidates (candidate 1 0 ∷ candidate 10 1 ∷ [])))
per_image_example = deduplicate_image_candidates-OnePerImage (candidate 1 0 ∷ candidate 10 1 ∷ [])
