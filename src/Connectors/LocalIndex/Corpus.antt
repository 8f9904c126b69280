-- ===== src/Connectors/LocalIndex/Corpus.antt =====
-- internal/connectors/local_index_corpus.go: what a corpus must be to be searched. The file system,
-- JSON, net/url and the functions on runes are parameters; an error of the file system is a step of
-- the opening that failed.
pub mod Limits
pub mod Loaded
use source_rudder.Prelude.{
  ℕ, suc, ◌*◌, ◌^◌, String, Bool, true, false, ◌&&◌, ◌||◌, not, Option, none, some, List, [], ◌∷◌,
  ◌++◌, ltb, leb, ◌==◌, if◌then◌else◌, length, ℤ, pos, eqb_ℤ, Text, bytes, text_eq, is_empty,
  show_nat,
}
use source_rudder.Types.{Failure, plain_error, wrap_error, Result, ok, err}
use source_rudder.Normalization.{seen_before}

abbrev pub local_index_version : ℤ
local_index_version = pos 1

abbrev pub max_local_index_bytes : ℕ
max_local_index_bytes = 4 * 2 ^ 20

abbrev pub max_local_index_documents : ℕ
max_local_index_documents = 10000

pub record LocalIndexDocument : Type 0 where
  pub id : Text
  pub title : Text
  pub url : Text
  pub snippet : Text
  pub author : Text
  pub tags : List Text

pub record LocalIndexCorpus : Type 0 where
  pub version : ℤ
  pub documents : List LocalIndexDocument

pub record Runes : Type 0 where
  pub to_lower : Text → Text
  pub trim_space : Text → Text
  pub rune_count : Text → ℕ

-- What url.ParseRequestURI finds; `printed` is String().
pub record RequestUri : Type 0 where
  pub scheme : Text
  pub host : Text
  pub has_user : Bool
  pub raw_query : Text
  pub fragment : Text
  pub printed : Text

-- What root.Lstat says of the file.
pub record FileInfo : Type 0 where
  pub is_symlink : Bool
  pub is_regular : Bool
  pub others_write : Bool
  pub size : ℕ

pub record CorpusEnvironment : Type 0 where
  pub runes : Runes
  pub parse_request_uri : Text → Option RequestUri
  pub abs_path : Text → Result Text
  pub open_root : Text → Option Failure
  pub lstat : Text → Result FileInfo
  pub open_file : Text → Option Failure
  -- Whether the opened file is the one that was inspected.
  pub same_file : Text → Result Bool
  -- At most one byte more than the limit.
  pub read_limited : Text → Result Text
  -- The corpus, and whether only white space follows it.
  pub decode : Text → Result (LocalIndexCorpus × Bool)
  pub show_int : ℤ → Text

abbrev pub is_id_byte : ℕ → Bool
is_id_byte r =
    (leb b'a' r && leb r b'z')
    || (leb b'A' r && leb r b'Z')
    || (leb b'0' r && leb r b'9')
    || ((r == b'.') || (r == b'_') || (r == b'-'))

-- The loop over runes: a byte of a longer rune is not one of these either.
unfoldable pub is_safe_local_index_id : Text → Bool
is_safe_local_index_id [] = true
is_safe_local_index_id (r ∷ id) = is_id_byte r && is_safe_local_index_id id

abbrev pub bad_id : Failure
bad_id =
    plain_error (bytes "id must contain 1-128 ASCII letters, digits, dots, underscores, or hyphens")

abbrev pub bad_title : Failure
bad_title = plain_error (bytes "title must contain 1-512 characters")

abbrev pub too_long : Failure
too_long = plain_error (bytes "snippet or author exceeds its length limit")

abbrev pub too_many_tags : Failure
too_many_tags = plain_error (bytes "tags exceed the limit of 32")

abbrev pub bad_url : Failure
bad_url = plain_error (bytes "url must be an absolute http, https, or local-index URL")

abbrev pub url_extras : Failure
url_extras = plain_error (bytes "url must not contain credentials, query parameters, or fragments")

abbrev pub long_url : Failure
long_url = plain_error (bytes "url exceeds 2048 characters")

-- The checks of safeLocalIndexURL on the parts.
unfoldable pub check_request_uri : RequestUri → Result Text
check_request_uri u =
    if is_empty u.host
    then err bad_url
    else if u.has_user || (not (is_empty u.raw_query) || not (is_empty u.fragment))
    then err url_extras
    else if not (text_eq u.scheme (bytes "http"))
        && (not (text_eq u.scheme (bytes "https")) && not (text_eq u.scheme (bytes "local-index")))
    then err (plain_error (bytes "url scheme \"" ++ (u.scheme ++ bytes "\" is not allowed")))
    else ok u.printed

module _ (env : CorpusEnvironment) where
  unfoldable pub safe_local_index_url : Text → Text → Result Text
  safe_local_index_url raw id =
      if is_empty raw
      then ok (bytes "local-index://document/" ++ id)
      else if ltb 2048 (env.runes.rune_count raw)
      then err long_url
      else elim (env.parse_request_uri raw) [ none ↦ err bad_url | some u ↦ check_request_uri u ]

  -- The loop over the tags, from the index i on: the trimmed tags, or the error.
  unfoldable pub trim_tags : ℕ → List Text → Result (List Text)
  trim_tags i [] = ok []
  trim_tags i (raw ∷ tags) =
      let tag = env.runes.trim_space raw in
      let rest = trim_tags (suc i) tags in
      if is_empty tag || ltb 128 (env.runes.rune_count tag)
      then err
          (plain_error (bytes "tag " ++ (show_nat i ++ bytes " must contain 1-128 characters")))
      else elim rest [ err e ↦ err e | ok ts ↦ ok (tag ∷ ts) ]

  -- The document as it is left, and the set of the ids with its own.
  unfoldable pub validate_local_index_document :
      LocalIndexDocument → List Text → Result (LocalIndexDocument × List Text)
  validate_local_index_document doc seen =
      let count = env.runes.rune_count in
      let trim = env.runes.trim_space in
      let id = trim doc.id in
      let title = trim doc.title in
      let snippet = trim doc.snippet in
      let author = trim doc.author in
      if is_empty id || (ltb 128 (count id) || not (is_safe_local_index_id id))
      then err bad_id
      else if seen_before id seen
      then err (plain_error (bytes "duplicate id \"" ++ (id ++ bytes "\"")))
      else if is_empty title || ltb 512 (count title)
      then err bad_title
      else if ltb 4096 (count snippet) || ltb 256 (count author)
      then err too_long
      else if ltb 32 (length doc.tags)
      then err too_many_tags
      else elim (trim_tags 0 doc.tags) [
        | err e ↦ err e
        | ok tags ↦ elim (safe_local_index_url (trim doc.url) id) [
          | err e ↦ err e
          | ok safe ↦ ok (
            record {
              id = id;
              title = title;
              url = safe;
              snippet = snippet;
              author = author;
              tags = tags;
            },
            id ∷ seen,
          )
        ]
      ]

  -- The loop over the documents, from the index i on.
  unfoldable pub validate_documents :
      ℕ → List LocalIndexDocument → List Text → Result (List LocalIndexDocument)
  validate_documents i [] seen = ok []
  validate_documents i (d ∷ ds) seen = elim (validate_local_index_document d seen) [
    | err e ↦ err (wrap_error (bytes "local index document " ++ (show_nat i ++ bytes ": ")) e)
    | ok v ↦ elim (validate_documents (suc i) ds v.1) [ err e ↦ err e | ok docs ↦ ok (v.0 ∷ docs) ]
  ]

  -- What is decoded of the file's bytes, checked.
  unfoldable pub decode_corpus : Text → Result (List LocalIndexDocument)
  decode_corpus data_ =
      if ltb max_local_index_bytes (length data_)
      then err (plain_error (bytes "local index exceeds 4194304 bytes"))
      else elim (env.decode data_) [
        | err e ↦ err (wrap_error (bytes "decode local index: ") e)
        | ok (corpus, ended) ↦
            if not ended
            then err (plain_error (bytes "decode local index: trailing JSON content"))
            else if not (eqb_ℤ corpus.version local_index_version)
            then err (
                plain_error
                  (bytes "unsupported local index version " ++ env.show_int corpus.version))
            else if ltb max_local_index_documents (length corpus.documents)
            then err (plain_error (bytes "local index exceeds 10000 documents"))
            else validate_documents 0 corpus.documents []
      ]

  -- The part of loadLocalIndexCorpus that reads the file.
  unfoldable pub read_index_file : Text → Result Text
  read_index_file name = elim (env.lstat name) [
    | err e ↦ err (wrap_error (bytes "inspect local index: ") e)
    | ok info ↦
        if info.is_symlink
        then err (plain_error (bytes "local index must not be a symlink"))
        else if not info.is_regular
        then err (plain_error (bytes "local index must be a regular file"))
        else if info.others_write
        then err (plain_error (bytes "local index must not be group- or world-writable"))
        else if ltb max_local_index_bytes info.size
        then err (plain_error (bytes "local index exceeds 4194304 bytes"))
        else elim (env.open_file name) [
          | some e ↦ err (wrap_error (bytes "open local index: ") e)
          | none ↦ elim (env.same_file name) [
            | err e ↦ err (wrap_error (bytes "inspect opened local index: ") e)
            | ok false ↦ err (plain_error (bytes "local index changed while opening"))
            | ok true ↦ elim (env.read_limited name) [
              | err e ↦ err (wrap_error (bytes "read local index: ") e)
              | ok data_ ↦ ok data_
            ]
          ]
        ]
  ]

  unfoldable pub load_local_index_corpus : Text → Result (List LocalIndexDocument)
  load_local_index_corpus raw =
      let path = env.runes.trim_space raw in
      if is_empty path
      then err (plain_error (bytes "local index path is empty"))
      else elim (env.abs_path path) [
        | err e ↦ err (wrap_error (bytes "resolve local index path: ") e)
        | ok name ↦ elim (env.open_root name) [
          | some e ↦ err (wrap_error (bytes "open local index directory: ") e)
          | none ↦ elim (read_index_file name) [ err e ↦ err e | ok data_ ↦ decode_corpus data_ ]
        ]
      ]
