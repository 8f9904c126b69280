-- ===== src/Connectors/Api/Keys.antt =====
-- Which bytes GenerateCacheKey hashes for the searches of an API.
use source_rudder.Prelude.{
  ℕ, ◌≡◌, refl, sym, ap, ◌∙◌, [], ◌∷◌, ◌++◌, ◌==◌, if◌then◌else◌, Text, bytes,
}
use mathlib.Core.List.{append_assoc, append_cancel_right}
use source_rudder.Connectors.Api.{
  ApiSearch, github_repo, github_pr, github_issue, npm, nuget, pypi, dockerhub, stackoverflow,
  key_sources, concat_texts, hashed_text,
}

-- The last byte of a text, or 0.
last_byte : Text → ℕ
last_byte [] = 0
last_byte (c ∷ []) = c
last_byte (c ∷ d ∷ t) = last_byte (d ∷ t)

last_byte-append : (t : Text) (c : ℕ) (s : Text) → last_byte (t ++ c ∷ s) ≡ last_byte (c ∷ s)
unfolding last_byte
last_byte-append [] c s = refl
last_byte-append (x ∷ []) c s = refl
last_byte-append (x ∷ y ∷ t) c s = last_byte-append (y ∷ t) c s

abbrev source_text : ApiSearch → Text
source_text search = concat_texts (key_sources search)

-- The search whose sources end in the byte.
search_ending : ℕ → ApiSearch
search_ending b =
    if b == b'o'
    then github_repo
    else if b == b'r'
    then github_pr
    else if b == b'e'
    then github_issue
    else if b == b'm'
    then npm
    else if b == b't'
    then nuget
    else if b == b'i'
    then pypi
    else if b == b'b'
    then dockerhub
    else stackoverflow

search_ending-last_byte : (s : ApiSearch) → search_ending (last_byte (source_text s)) ≡ s
unfolding search_ending last_byte concat_texts key_sources bytes
search_ending-last_byte github_repo = refl
search_ending-last_byte github_pr = refl
search_ending-last_byte github_issue = refl
search_ending-last_byte npm = refl
search_ending-last_byte nuget = refl
search_ending-last_byte pypi = refl
search_ending-last_byte dockerhub = refl
search_ending-last_byte stackoverflow = refl

last_byte-source :
    (q : Text) (s : ApiSearch) → last_byte (q ++ source_text s) ≡ last_byte (source_text s)
unfolding concat_texts key_sources bytes
last_byte-source q github_repo = last_byte-append q _ _
last_byte-source q github_pr = last_byte-append q _ _
last_byte-source q github_issue = last_byte-append q _ _
last_byte-source q npm = last_byte-append q _ _
last_byte-source q nuget = last_byte-append q _ _
last_byte-source q pypi = last_byte-append q _ _
last_byte-source q dockerhub = last_byte-append q _ _
last_byte-source q stackoverflow = last_byte-append q _ _

-- GenerateCacheKey hashes the same bytes for two searches of the API connectors only if they are
-- of the same kind and for the same query.
pub hashed_text_inj :
    (p q : Text) (s t : ApiSearch)
    → hashed_text p (key_sources s) [] ≡ hashed_text q (key_sources t) []
    → (p ≡ q) × (s ≡ t)
unfolding hashed_text
hashed_text_inj p q s t h =
    let cut : p ++ source_text s ≡ q ++ source_text t =
      append_cancel_right (p ++ source_text s) (q ++ source_text t) (bytes "|tr=" ++ [])
        (append_assoc p (source_text s) _ ∙ h ∙ sym (append_assoc q (source_text t) _)) in
    let same : s ≡ t =
      sym (search_ending-last_byte s)
      ∙ ap search_ending (sym (last_byte-source p s) ∙ ap last_byte cut ∙ last_byte-source q t)
      ∙ search_ending-last_byte t in
    (append_cancel_right p q (source_text t) (rw same at cut), same)
