-- ===== src/Fetch/Redirect/Repeat.antt =====
-- A status from 300 to 399 without a Location, such as 304.
use source_rudder.Prelude.{
  ℕ, zero, suc, ◌≤◌, ◌<◌, ◌≡◌, refl, ap, ◌∙◌, inl, inr, none, List, [], ◌∷◌, ◌++◌, arith,
  Bool-cases, Option-cases, length, pos, pos_part, ◌+ℤ◌, Text, bytes,
}
use source_rudder.Types.{ok, too_many_redirects}
use source_rudder.Fetch.Address.{Ip}
use source_rudder.Fetch.Config.{Config}
use source_rudder.Fetch.World.{Url, Response, World, Run, resolve_and_validate, do_request}
use source_rudder.Fetch.Redirect.{
  visit, warned, classify, judge, receive, respond, send, hop_step, rounds, manual_redirect_fetch,
  max_fetch_response_bytes,
}

-- The response at a moment: a status from 300 to 399, no Location, and a body that is read and within the
-- limit. Its Close may fail.
pub record Responds3xx (w : World) (url : Text) (m : ℕ) : Type 0 where
  pub response : Response
  pub answers : w.exchange m url ≡ ok response
  pub from_300 : 300 ≤ response.status
  pub to_399 : response.status < 400
  pub no_location : response.location ≡ []
  pub body : Text
  pub reads : response.body ≡ ok body
  pub small : length body ≤ max_fetch_response_bytes

-- Every request for the URL has such a response. The URL parses, a request for it can be built, and its
-- host always passes the guard.
pub record Answers3xx (w : World) (url : Text) : Type 0 where
  pub parsed : Url
  pub parses : w.parse url ≡ ok parsed
  pub builds : w.request_error url ≡ none
  pub resolves : (m : ℕ) → (ip : Ip) × (resolve_and_validate w m parsed.hostname ≡ ok ip)
  pub responds : (m : ℕ) → Responds3xx w url m

-- The URL as often as the count says.
abbrev pub replicate : ℕ → Text → List Text
replicate zero url = []
replicate (suc n) url = url ∷ replicate n url

replicate_shift :
    (n : ℕ) (url : Text) (rest : List Text)
    → replicate n url ++ url ∷ rest ≡ url ∷ replicate n url ++ rest
replicate_shift zero url rest = refl
replicate_shift (suc n) url rest = ap (λ xs. url ∷ xs) (replicate_shift n url rest)

module _ (w : World) (c : Config) (url : Text) (a : Answers3xx w url) where
  requested :
      (r : Run)
      → (s : Run) × (do_request w url a.parsed.hostname r ≡ (s, w.exchange r.moment url))
        × (s.requests ≡ url ∷ r.requests)
  unfolding do_request
  requested r = elim (Bool-cases (w.reuses r.moment)) [
    | inl idle ↦ rw idle (_, refl, refl)
    | inr fresh ↦ let (ip, q) = a.resolves r.moment in rw fresh (rw (q, do_request) (_, refl, refl))
  ]

  judged :
      (m hop : ℕ) (x : Responds3xx w url m) (r : Run)
      → judge w c hop url a.parsed x.response x.body r ≡ visit r url
  unfolding judge classify
  judged m hop x r = rw x.no_location (ground (arith, x.from_300, x.to_399, x.small))

  answered :
      (m hop : ℕ) (x : Responds3xx w url m) (s : Run)
      → (t : Run) × (respond w c hop url a.parsed (s, ok x.response) ≡ visit t url)
        × (t.requests ≡ s.requests)
  unfolding respond receive
  answered m hop x s =
      let t : Run = record s { response = record (s.response) { status = x.response.status } } in
      elim (Option-cases x.response.close_error) [
        | inl q ↦ (t, rw (x.reads, respond) (rw (q, receive) (judged m hop x t)), refl)
        | inr (e, q) ↦
            let u = warned t (bytes "close response body: " ++ e.message) in
            (u, rw (x.reads, respond) (rw (q, receive) (judged m hop x u)), refl)
      ]

  sent :
      (hop : ℕ) (r : Run)
      → hop_step w c hop url r
        ≡ respond w c hop url a.parsed
            (do_request w url a.parsed.hostname (record r { moment = suc r.moment }))
  unfolding hop_step send
  sent hop r =
      let (ip, q) = a.resolves r.moment in
      rw (a.parses, hop_step) (rw (q, send) (rw (a.builds, send) refl))

  again :
      (hop : ℕ) (r : Run)
      → (s : Run) × (hop_step w c hop url r ≡ visit s url) × (s.requests ≡ url ∷ r.requests)
  again hop r =
      let (s, e, q) = requested (record r { moment = suc r.moment }) in
      let x = a.responds (suc r.moment) in
      let (t, f, g) = answered (suc r.moment) hop x s in
      (t, sent hop r ∙ (rw (e, x.answers) f), g ∙ q)

  repeats :
      (n hop : ℕ) (r : Run)
      → ((rounds w c n hop url r).0.response.outcome ≡ too_many_redirects)
        × ((rounds w c n hop url r).0.requests ≡ replicate n url ++ r.requests)
  unfolding rounds
  repeats zero hop r = (refl, refl)
  repeats (suc n) hop r =
      let (s, e, q) = again hop r in
      let (outcome, requests) = repeats n (suc hop) s in
      rw (e, rounds)
        (
          outcome,
          requests ∙ (ap (λ xs. replicate n url ++ xs) q ∙ replicate_shift n url r.requests),
        )

  -- If every response to a request for a URL has a status from 300 to 399, no Location and a body
  -- that is read and within the limit, and the URL parses, a request for it can be built and its
  -- host passes the guard each time, then one attempt asks for that URL MaxRedirects + 1 times,
  -- and for no other, and ends with the outcome too-many-redirects.
  pub manual_redirect_fetch_repeats :
      (r : Run)
      → ((manual_redirect_fetch w c url r).0.response.outcome ≡ too_many_redirects)
        × ((manual_redirect_fetch w c url r).0.requests
            ≡ replicate (pos_part (c.max_redirects +ℤ pos 1)) url ++ r.requests)
  unfolding manual_redirect_fetch
  manual_redirect_fetch_repeats r = repeats (pos_part (c.max_redirects +ℤ pos 1)) 0 r
