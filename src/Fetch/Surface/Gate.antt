-- ===== src/Fetch/Surface/Gate.antt =====
-- What the exported methods promise a client, on every branch.
use source_rudder.Prelude.{
  ◌≡◌, refl, ◌≢◌, ◌↔◌, ◌⊎◌, inl, inr, true, false, Option, none, some, [], ◌∷◌, arith, Option-cases,
  pos, ◌<ℤ◌, Text, bytes, text_eq, text_eq_iff, is_empty,
}
use source_rudder.Types.{Failure, ok, Result-cases}
use source_rudder.Fetch.Config.{Config}
use source_rudder.Fetch.World.{Url, World, Run}
use source_rudder.Fetch.World.Resolve.{AllPublic}
use source_rudder.Fetch.Engine.{do_fetch_with_retries}
use source_rudder.Fetch.Engine.Loop.{Answers}
use source_rudder.Fetch.Engine.Contract.{start, dials-AllPublic, do_fetch_with_retries-Answers}
use source_rudder.Fetch.Surface.{
  reachable, link_of, validate_url_text, fetch, validate_url, check_link,
}

reachable-Answers :
    (r : Run) (e : Option Failure) → Answers r e → (reachable r.response ≡ true) ↔ (e ≡ none)
unfolding reachable
reachable-Answers r none a = ground arith
reachable-Answers r (some e) a = ground arith

link_of-reachable :
    (raw : Text) (r : Run) (e : Option Failure)
    → Answers r e
    → (link_of raw (r, e)).valid ≡ reachable r.response
unfolding link_of reachable
link_of-reachable raw r none a = ground arith
link_of-reachable raw r (some e) a = ground arith

module _ (w : World) where
  http : (u : Url) → (text_eq u.scheme (bytes "http") ≡ true) ↔ (u.scheme ≡ bytes "http")
  http u = text_eq_iff u.scheme (bytes "http")

  https : (u : Url) → (text_eq u.scheme (bytes "https") ≡ true) ↔ (u.scheme ≡ bytes "https")
  https u = text_eq_iff u.scheme (bytes "https")

  -- The text guard lets a URL through exactly when it is not empty, it parses, its scheme is http
  -- or https, it has a host, and the host does not match the patterns of internal names.
  pub validate_url_text_iff :
      (raw : Text)
      → (validate_url_text w raw ≡ none) ↔ (
          (raw ≢ [])
          × ((u : Url) × (w.parse raw ≡ ok u)
              × ((u.scheme ≡ bytes "http") ⊎ (u.scheme ≡ bytes "https"))
              × (u.host ≢ [])
              × (w.matches_localhost u.hostname ≡ false)))
  unfolding validate_url_text
  validate_url_text_iff [] = (λ h. cc, λ h. absurd (h.0 refl))
  validate_url_text_iff (b ∷ rest) = elim (Result-cases (w.parse (b ∷ rest))) [
    | inl (e, p) ↦ rw (p, validate_url_text) (λ h. cc, λ (_, x). cc (x.1))
    | inr (u, p) ↦
        rw (p, validate_url_text)
          (
            λ h. (
              λ q. cc,
              (
                u,
                refl,
                ground (arith, http u, https u),
                ground (arith, http u, https u),
                ground (arith, http u, https u),
              ),
            ),
            λ h. ground (arith, http u, https u, h.1.1, h.1.2, h.1.3, h.1.4),
          )
  ]

  module _ (c : Config) where
    fetch-AllPublic : (raw : Text) → AllPublic (fetch w c raw).0.dials
    unfolding fetch
    fetch-AllPublic raw = elim (Option-cases (validate_url_text w raw)) [
      | inl accepted ↦ rw (accepted, fetch) (dials-AllPublic w c raw)
      | inr (e, refusal) ↦ rw (refusal, fetch) tt
    ]

    pub fetch-Answers :
        (raw : Text) → pos 0 <ℤ c.max_attempts → Answers (fetch w c raw).0 (fetch w c raw).1
    unfolding fetch
    fetch-Answers raw h = elim (Option-cases (validate_url_text w raw)) [
      | inl accepted ↦ rw (accepted, fetch) (do_fetch_with_retries-Answers w c raw (start raw) h)
      | inr (e, refusal) ↦ rw (refusal, fetch) tt
    ]

    refused_empty : (raw : Text) → validate_url_text w raw ≡ none → is_empty raw ≡ false
    unfolding validate_url_text
    refused_empty [] h = cc
    refused_empty (b ∷ rest) h = refl

    -- With at least one attempt allowed, ValidateURL says yes exactly when the text guard lets the
    -- URL through and fetching it returns no error.
    pub validate_url_iff :
        (raw : Text)
        → pos 0 <ℤ c.max_attempts
        → ((validate_url w c raw).0 ≡ true) ↔ (
            (validate_url_text w raw ≡ none)
            × ((do_fetch_with_retries w c raw (start raw)).1 ≡ none))
    unfolding validate_url
    validate_url_iff raw h = elim (Option-cases (validate_url_text w raw)) [
      | inl accepted ↦
          let f = do_fetch_with_retries w c raw (start raw) in
          let r = reachable-Answers f.0 f.1 (do_fetch_with_retries-Answers w c raw (start raw) h) in
          rw (accepted, validate_url)
            (rw (refused_empty raw accepted) (λ y. (refl, r.0 y), λ y. r.1 y.1))
      | inr (e, refusal) ↦ rw (refusal, validate_url) (λ y. ground arith, λ y. cc (y.0))
    ]

    -- With at least one attempt allowed, CheckLinkStatus calls a link valid exactly when
    -- ValidateURL does, in the same environment.
    pub check_link-validate_url :
        (raw : Text)
        → pos 0 <ℤ c.max_attempts
        → (check_link w c raw).valid ≡ (validate_url w c raw).0
    unfolding check_link validate_url
    check_link-validate_url raw h = elim (Option-cases (validate_url_text w raw)) [
      | inl accepted ↦
          let f = do_fetch_with_retries w c raw (start raw) in
          rw (accepted, check_link, validate_url)
            (rw (refused_empty raw accepted)
              (link_of-reachable raw f.0 f.1 (do_fetch_with_retries-Answers w c raw (start raw) h)))
      | inr (e, refusal) ↦ rw (refusal, check_link, validate_url) (ground arith)
    ]
