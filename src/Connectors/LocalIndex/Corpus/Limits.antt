-- ===== src/Connectors/LocalIndex/Corpus/Limits.antt =====
-- What holds of every document of a corpus that loadLocalIndexCorpus accepts.
use source_rudder.Prelude.{
  ℕ, suc, ◌≤◌, ◌≡◌, refl, ◌⊎◌, inl, inr, true, false, ◌&&◌, ◌||◌, not, some, List, [], ◌∷◌, ◌++◌,
  arith, ltb, Bool-cases, Option-cases, length, All, Text, bytes, text_eq, is_empty,
}
use source_rudder.Types.{Result-cases, Holds, Holds-value}
use source_rudder.Connectors.LocalIndex.Corpus.{
  validate_local_index_document, validate_documents, seen_before, safe_local_index_url,
  LocalIndexDocument, CorpusEnvironment, RequestUri, check_request_uri, is_safe_local_index_id,
  trim_tags,
}

-- A URL without credentials, query or fragment, and of a scheme that is shown.
pub record IsPlainUri (u : RequestUri) : Type 0 where
  anonymous : u.has_user ≡ false
  without_query : is_empty u.raw_query ≡ true
  without_fragment : is_empty u.fragment ≡ true
  with_host : is_empty u.host ≡ false
  scheme_allowed :
      (text_eq u.scheme (bytes "http")
        || text_eq u.scheme (bytes "https")
        || text_eq u.scheme (bytes "local-index"))
      ≡ true

module _ (env : CorpusEnvironment) where
  abbrev count : Text → ℕ
  count = env.runes.rune_count

  -- The URL is the printed form of what a text of at most 2048 characters parses to.
  pub record ParsedUrl (url : Text) : Type 0 where
    raw : Text
    short_raw : count raw ≤ 2048
    uri : RequestUri
    parses : env.parse_request_uri raw ≡ some uri
    plain : IsPlainUri uri
    prints : url ≡ uri.printed

  abbrev SafeUrl : Text → Text → Type 0
  SafeUrl url id = (url ≡ bytes "local-index://document/" ++ id) ⊎ ParsedUrl url

  abbrev pub TagWithin : Text → Type 0
  TagWithin tag = (is_empty tag ≡ false) × (count tag ≤ 128)

  pub record Within (d : LocalIndexDocument) : Type 0 where
    has_id : is_empty d.id ≡ false
    short_id : count d.id ≤ 128
    safe_id : is_safe_local_index_id d.id ≡ true
    has_title : is_empty d.title ≡ false
    short_title : count d.title ≤ 512
    short_snippet : count d.snippet ≤ 4096
    short_author : count d.author ≤ 256
    few_tags : length d.tags ≤ 32
    short_tags : All TagWithin d.tags
    safe_url : SafeUrl d.url d.id

  trim_tags-within :
      (i : ℕ) (tags : List Text)
      → Holds (λ ts. All TagWithin ts × (length ts ≡ length tags)) (trim_tags env i tags)
  unfolding trim_tags
  trim_tags-within i [] = (tt, refl)
  trim_tags-within i (raw ∷ tags) =
      let tag = env.runes.trim_space raw in
      elim (Bool-cases (is_empty tag || ltb 128 (count tag))) [
        | inl b ↦ rw b tt
        | inr b ↦ rw b (elim (Result-cases (trim_tags env (suc i) tags)) [
          | inl (e, q) ↦ rw q tt
          | inr (us, q) ↦ rw q (
              let rest = Holds-value _ _ us q (trim_tags-within (suc i) tags) in
              (((ground (arith, b), ground (arith, b)), rest.0), omega (arith, rest.1)))
        ])
      ]

  check_request_uri-plain :
      (u : RequestUri) → Holds (λ url. IsPlainUri u × (url ≡ u.printed)) (check_request_uri u)
  unfolding check_request_uri
  check_request_uri-plain u = elim (Bool-cases (is_empty u.host)) [
    | inl a ↦ rw a tt
    | inr a ↦
        elim (Bool-cases
          (u.has_user || (not (is_empty u.raw_query) || not (is_empty u.fragment)))) [
            | inl b ↦ rw (a, b) tt
            | inr b ↦
                elim (Bool-cases (
                  not (text_eq u.scheme (bytes "http"))
                  && (not (text_eq u.scheme (bytes "https"))
                      && not (text_eq u.scheme (bytes "local-index"))))) [
                        | inl c ↦ rw (a, b, c) tt
                        | inr c ↦
                            rw (a, b, c)
                              (
                                record {
                                  anonymous = ground (arith, b);
                                  without_query = ground (arith, b);
                                  without_fragment = ground (arith, b);
                                  with_host = a;
                                  scheme_allowed = ground (arith, c);
                                },
                                refl,
                              )
                      ]
          ]
  ]

  safe_local_index_url-SafeUrl :
      (raw id : Text) → Holds (λ url. SafeUrl url id) (safe_local_index_url env raw id)
  unfolding safe_local_index_url
  safe_local_index_url-SafeUrl raw id = elim (Bool-cases (is_empty raw)) [
    | inl b ↦ rw b (inl refl)
    | inr b ↦ elim (Bool-cases (ltb 2048 (count raw))) [
      | inl c ↦ rw (b, c) tt
      | inr c ↦ elim (Option-cases (env.parse_request_uri raw)) [
        | inl q ↦ rw (b, c, q) tt
        | inr (u, q) ↦
            rw (b, c, q)
              (elim (Result-cases (check_request_uri u)) [
                | inl (e, r) ↦ rw r tt
                | inr (url, r) ↦
                    let (plain, prints) = Holds-value _ _ url r (check_request_uri-plain u) in
                    rw r (
                      inr (record {
                        raw = raw;
                        short_raw = ground (arith, c);
                        uri = u;
                        parses = q;
                        plain = plain;
                        prints = prints;
                      }))
              ])
      ]
    ]
  ]

  -- Accepted, and not among those seen before.
  abbrev Accepted : List Text → LocalIndexDocument × List Text → Type 0
  Accepted seen (d, ids) = Within d × (seen_before d.id seen ≡ false) × (ids ≡ d.id ∷ seen)

  validate-Accepted :
      (doc : LocalIndexDocument) (seen : List Text)
      → Holds (Accepted seen) (validate_local_index_document env doc seen)
  unfolding validate_local_index_document
  validate-Accepted doc seen =
      let id = env.runes.trim_space doc.id in
      let title = env.runes.trim_space doc.title in
      let snippet = env.runes.trim_space doc.snippet in
      let author = env.runes.trim_space doc.author in
      elim (Bool-cases (is_empty id || (ltb 128 (count id) || not (is_safe_local_index_id id)))) [
        | inl a ↦ rw a tt
        | inr a ↦ elim (Bool-cases (seen_before id seen)) [
          | inl b ↦ rw (a, b) tt
          | inr b ↦ elim (Bool-cases (is_empty title || ltb 512 (count title))) [
            | inl c ↦ rw (a, b, c) tt
            | inr c ↦ elim (Bool-cases (ltb 4096 (count snippet) || ltb 256 (count author))) [
              | inl d ↦ rw (a, b, c, d) tt
              | inr d ↦ elim (Bool-cases (ltb 32 (length doc.tags))) [
                | inl e ↦ rw (a, b, c, d, e) tt
                | inr e ↦ elim (Result-cases (trim_tags env 0 doc.tags)) [
                  | inl (_, f) ↦ rw (a, b, c, d, e, f) tt
                  | inr (tags, f) ↦
                      elim (Result-cases
                        (safe_local_index_url env (env.runes.trim_space doc.url) id)) [
                          | inl (_, g) ↦ rw (a, b, c, d, e, f, g) tt
                          | inr (safe, g) ↦
                              let tagged = Holds-value _ _ tags f (trim_tags-within 0 doc.tags) in
                              rw (a, b, c, d, e, f, g)
                                (
                                  record {
                                    has_id = ground (arith, a);
                                    short_id = ground (arith, a);
                                    safe_id = ground (arith, a);
                                    has_title = ground (arith, c);
                                    short_title = ground (arith, c);
                                    short_snippet = ground (arith, d);
                                    short_author = ground (arith, d);
                                    few_tags = ground (arith, e, tagged.1);
                                    short_tags = tagged.0;
                                    safe_url =
                                        Holds-value (λ url. SafeUrl url id) _ safe g
                                          (safe_local_index_url-SafeUrl
                                            (env.runes.trim_space doc.url) id);
                                  },
                                  b,
                                  refl,
                                )
                        ]
                ]
              ]
            ]
          ]
        ]
      ]

  -- No id is that of another document, or among those seen.
  abbrev pub UniqueIds : List Text → List LocalIndexDocument → Type 0
  UniqueIds seen [] = Unit
  UniqueIds seen (d ∷ ds) = (seen_before d.id seen ≡ false) × UniqueIds (d.id ∷ seen) ds

  pub validate_documents_sound :
      (i : ℕ) (docs : List LocalIndexDocument) (seen : List Text)
      → Holds
          (λ ds. All Within ds × UniqueIds seen ds × (length ds ≡ length docs))
          (validate_documents env i docs seen)
  unfolding validate_documents
  validate_documents_sound i [] seen = (tt, tt, refl)
  validate_documents_sound i (d ∷ docs) seen =
      elim (Result-cases (validate_local_index_document env d seen)) [
        | inl (e, q) ↦ rw (Holds, q) tt
        | inr (v, q) ↦
            let (within, fresh, same) = Holds-value _ _ v q (validate-Accepted d seen) in
            elim (Result-cases (validate_documents env (suc i) docs v.1)) [
              | inl (e, r) ↦ rw (Holds, q, r) tt
              | inr (ds, r) ↦
                  let (all, unique, counted) =
                    Holds-value _ _ ds r (validate_documents_sound (suc i) docs v.1) in
                  rw (Holds, q, r)
                    ((within, all), (fresh, rw same at unique), omega (arith, counted))
            ]
      ]
