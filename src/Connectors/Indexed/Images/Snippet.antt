-- ===== src/Connectors/Indexed/Images/Snippet.antt =====
-- internal/connectors/images.go: the URLs and the snippets of images.
use source_rudder.Prelude.{
  ℕ, ◌-◌, Bool, false, ◌&&◌, ◌||◌, not, Option, none, some, List, [], ◌∷◌, ◌++◌, ltb, leb, ◌==◌,
  if◌then◌else◌, Text, bytes, text_eq, is_empty, contains, join,
}
use source_rudder.Connectors.Indexed.{IndexEnvironment}

-- What url.Parse finds.
pub record ImageUrl : Type 0 where
  pub scheme : Text
  pub has_user : Bool
  pub hostname : Text
  pub port : Text
  pub path : Text

pub record ImageEnvironment : Type 0 where
  pub index : IndexEnvironment
  pub parse_url : Text → Option ImageUrl
  -- String() of a URL that is parsed, with this scheme and host and without a fragment.
  pub print_url : Text → Text → Text → Text
  -- strings.FieldsFunc at what is neither a letter nor a number, and strings.Fields.
  pub fields : Text → List Text
  pub blank_fields : Text → List Text
  pub rune_count : Text → ℕ
  pub take_runes : ℕ → Text → Text
  -- The hexadecimal form of a SHA-256 sum.
  pub sha256_hex : Text → Text

abbrev pub max_image_snippet_runes : ℕ
max_image_snippet_runes = 320

abbrev pub max_image_context_runes : ℕ
max_image_context_runes = 600

abbrev ellipsis : Text
ellipsis = bytes "…"

unfoldable pub is_http_parts : ImageUrl → Bool
is_http_parts u =
    (text_eq u.scheme (bytes "http") || text_eq u.scheme (bytes "https"))
    && (not u.has_user && not (is_empty u.hostname))

-- net.JoinHostPort
unfoldable pub join_host_port : Text → Text → Text
join_host_port host port =
    if contains host (bytes ":")
    then bytes "[" ++ (host ++ (bytes "]:" ++ port))
    else host ++ (bytes ":" ++ port)

module _ (env : ImageEnvironment) where
  unfoldable pub is_http_url : Text → Bool
  is_http_url raw = elim (env.parse_url raw) [ none ↦ false | some u ↦ is_http_parts u ]

  unfoldable pub canonical_image_url : Text → Option Text
  canonical_image_url raw = elim (env.parse_url raw) [
    | none ↦ none
    | some u ↦
        if is_http_parts u
        then some (
            env.print_url raw (env.index.to_lower u.scheme) (
              if is_empty u.port
              then env.index.to_lower u.hostname
              else join_host_port (env.index.to_lower u.hostname) u.port))
        else none
  ]

  unfoldable pub image_citation_id : Text → Text
  image_citation_id canonical = bytes "images:" ++ env.sha256_hex canonical

  unfoldable pub bounded_image_content : Text → Text
  bounded_image_content content =
      let joined = join (env.blank_fields content) (bytes " ") in
      if leb (env.rune_count joined) max_image_snippet_runes
      then joined
      else env.take_runes (max_image_snippet_runes - 1) joined ++ ellipsis

  unfoldable pub bounded_image_runes : Text → ℕ → Text
  bounded_image_runes value limit =
      if leb (env.rune_count value) limit
      then value
      else if limit == 1
      then ellipsis
      else env.take_runes (limit - 1) value ++ ellipsis

  -- Two contexts that are too long together are cut down to the first.
  unfoldable pub bounded_image_context : List Text → Text
  bounded_image_context contexts =
      let joined = join contexts (bytes " | ") in
      if leb (env.rune_count joined) max_image_context_runes then joined else first_of contexts
    where
      first_of : List Text → Text
      first_of (a ∷ b ∷ []) = if leb (env.rune_count a) max_image_context_runes then a else []
      first_of _ = []

  unfoldable pub image_contexts : Text → Text → Text → List Text
  image_contexts page thumbnail selected =
      (if is_http_url page then (bytes "Source page: " ++ page) ∷ [] else [])
      ++ (elim (canonical_image_url thumbnail) [
        | none ↦ []
        | some preview ↦
            if text_eq preview selected then [] else (bytes "Indexed preview: " ++ preview) ∷ []
      ])

  unfoldable pub image_snippet : Text → Text → Text → Text → Text → Text → Text
  image_snippet content page thumbnail selected source engine =
      let description = bounded_image_content content in
      let context = bounded_image_context (image_contexts page thumbnail selected) in
      let remaining = max_image_context_runes - env.rune_count context - 3 in
      if not (is_empty context) && is_empty description
      then context
      else if not (is_empty context) && ltb 0 remaining
      then bounded_image_runes description remaining ++ (bytes " | " ++ context)
      else if not (is_empty description)
      then description
      else bytes "Source: " ++ (source ++ (bytes " | Engine: " ++ engine))
