-- ===== src/Connectors/LocalIndex/Corpus/Loaded.antt =====
-- What loadLocalIndexCorpus accepts, from the file to the documents.
use source_rudder.Prelude.{
  ◌≤◌, ◌≡◌, inl, inr, not, List, [], arith, ltb, Bool-cases, Option-cases, length, All, eqb_ℤ, Text,
  is_empty,
}
use source_rudder.Types.{Result-cases, ok, Holds, Holds-value}
use source_rudder.Connectors.LocalIndex.Corpus.{
  LocalIndexDocument, CorpusEnvironment, max_local_index_bytes, max_local_index_documents,
  local_index_version, validate_documents, decode_corpus, read_index_file, load_local_index_corpus,
}
use source_rudder.Connectors.LocalIndex.Corpus.Limits.{Within, UniqueIds, validate_documents_sound}

-- What the check of a corpus lets through.
pub record Corpus (env : CorpusEnvironment) (ds : List LocalIndexDocument) : Type 0 where
  within : All (Within env) ds
  unique : UniqueIds env [] ds
  few : length ds ≤ 10000

module _ (env : CorpusEnvironment) where
  decode_corpus_sound : (data_ : Text) → Holds (Corpus env) (decode_corpus env data_)
  unfolding decode_corpus
  decode_corpus_sound data_ = elim (Bool-cases (ltb max_local_index_bytes (length data_))) [
    | inl a ↦ rw a tt
    | inr a ↦ elim (Result-cases (env.decode data_)) [
      | inl (e, q) ↦ rw (a, q) tt
      | inr (v, q) ↦ elim (Bool-cases (not v.1)) [
        | inl b ↦ rw (a, q, b) tt
        | inr b ↦ elim (Bool-cases (not (eqb_ℤ v.0.version local_index_version))) [
          | inl c ↦ rw (a, q, b, c) tt
          | inr c ↦ elim (Bool-cases (ltb max_local_index_documents (length v.0.documents))) [
            | inl d ↦ rw (a, q, b, c, d) tt
            | inr d ↦ elim (Result-cases (validate_documents env 0 v.0.documents [])) [
              | inl (e, r) ↦ rw (a, q, b, c, d, r) tt
              | inr (ds, r) ↦
                  let (all, unique, counted) =
                    Holds-value _ _ ds r (validate_documents_sound env 0 v.0.documents []) in
                  rw (a, q, b, c, d, r)
                    (record { within = all; unique = unique; few = ground (arith, d, counted) })
            ]
          ]
        ]
      ]
    ]
  ]

  loaded_sound : (path : Text) → Holds (Corpus env) (load_local_index_corpus env path)
  unfolding load_local_index_corpus
  loaded_sound path = elim (Bool-cases (is_empty (env.runes.trim_space path))) [
    | inl a ↦ rw a tt
    | inr a ↦ elim (Result-cases (env.abs_path (env.runes.trim_space path))) [
      | inl (e, q) ↦ rw (a, q) tt
      | inr (name, q) ↦ elim (Option-cases (env.open_root name)) [
        | inr (e, r) ↦ rw (a, q, r) tt
        | inl r ↦ elim (Result-cases (read_index_file env name)) [
          | inl (e, s) ↦ rw (a, q, r, s) tt
          | inr (data_, s) ↦ rw (a, q, r, s) (decode_corpus_sound data_)
        ]
      ]
    ]
  ]

  -- A corpus that is loaded, whatever the file says, has at most 10000 documents with distinct
  -- ids, and each keeps its limits: an id of 1 to 128 safe characters, a title of 1 to 512, a
  -- snippet and an author of at most 4096 and 256, at most 32 tags of 1 to 128, and a URL that is
  -- the default one, or the printed form of what a text of at most 2048 characters parses to, with
  -- a host, an allowed scheme and no credentials, query or fragment.
  pub load_local_index_corpus_sound :
      (path : Text) (docs : List LocalIndexDocument)
      → load_local_index_corpus env path ≡ ok docs
      → Corpus env docs
  load_local_index_corpus_sound path docs h = Holds-value _ _ docs h (loaded_sound path)
