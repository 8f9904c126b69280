-- ===== src/Connectors/LocalIndex/Tests.antt =====
-- A corpus of one document, which is loaded and searched.
use source_rudder.Prelude.{◌≡◌, refl, true, false, none, some, [], ◌∷◌, length, pos, bytes, text_eq}
use source_rudder.Types.{SearchRequest, SearchResponse, ok}
use source_rudder.Normalization.{seen_before}
use source_rudder.Connectors.LocalIndex.Corpus.{
  check_request_uri, LocalIndexDocument, Runes, CorpusEnvironment, is_safe_local_index_id,
  safe_local_index_url, trim_tags, validate_local_index_document, validate_documents, decode_corpus,
  read_index_file, load_local_index_corpus,
}
use source_rudder.Connectors.LocalIndex.Corpus.Loaded.{Corpus, load_local_index_corpus_sound}
use source_rudder.Connectors.LocalIndex.{IndexEnvironment, local_search}
use source_rudder.Connectors.LocalIndex.Ranking.{Answers, local_search-Answers}

abbrev as_bytes : Runes
as_bytes = record { to_lower = λ s. s; trim_space = λ s. s; rune_count = length }

abbrev guide : LocalIndexDocument
guide = record {
  id = bytes "g-1";
  title = bytes "guide";
  url = bytes "https://go.dev";
  snippet = [];
  author = [];
  tags = bytes "docs" ∷ [];
}

abbrev disk : CorpusEnvironment
disk = record {
  runes = as_bytes;
  parse_request_uri = λ raw. some (record {
    host = bytes "go.dev";
    has_user = false;
    raw_query = [];
    fragment = [];
    scheme = bytes "https";
    printed = raw;
  });
  abs_path = ok;
  open_root = λ _. none;
  lstat =
      λ _. ok (record { is_symlink = false; is_regular = true; others_write = false; size = 10 });
  open_file = λ _. none;
  same_file = λ _. ok true;
  read_limited = λ _. ok (bytes "{}");
  decode = λ _. ok (record { version = pos 1; documents = guide ∷ [] }, true);
  show_int = λ _. [];
}

loads : load_local_index_corpus disk (bytes "index.json") ≡ ok (guide ∷ [])
unfolding load_local_index_corpus read_index_file decode_corpus validate_documents
    validate_local_index_document trim_tags safe_local_index_url check_request_uri
    is_safe_local_index_id seen_before text_eq bytes
loads = refl

loaded_example : Corpus disk (guide ∷ [])
loaded_example = load_local_index_corpus_sound disk (bytes "index.json") (guide ∷ []) loads

abbrev whole_query : IndexEnvironment
whole_query = record {
  runes = as_bytes;
  fields = λ q. q ∷ [];
  sort_ranked = λ rs. rs;
  ctx_err = λ _. none;
}

abbrev asked : SearchRequest
asked = record {
  query = bytes "guide";
  sources = [];
  max_results = pos 0;
  language = [];
  safe_search = false;
  time_range = [];
  format = [];
  cache_policy = [];
  deep_research = false;
  filters = [];
}

search_example :
    (resp : SearchResponse) × (local_search whole_query (guide ∷ []) asked ≡ ok resp)
    × Answers whole_query (guide ∷ []) asked resp
search_example = local_search-Answers whole_query (guide ∷ []) asked (λ p rs. refl) (λ j. refl)
