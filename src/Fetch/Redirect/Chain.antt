-- ===== src/Fetch/Redirect/Chain.antt =====
-- Where the next round of an attempt goes, and what RedirectChain records of it.
use mathlib.Core.Path.{subst}
use source_rudder.Prelude.{
  ℕ, suc, ◌≡◌, ◌⊎◌, inl, inr, List, [], ◌∷◌, ◌++◌, arith, Option-cases, Text,
}
use source_rudder.Types.{Result, ok, err, Result-cases}
use source_rudder.Fetch.Config.{Config}
use source_rudder.Fetch.World.{Url, Response, World, Run, resolve_and_validate, do_request}
use source_rudder.Fetch.Redirect.{
  Hop, return, visit, classify, follow, judge, receive, respond, send, hop_step,
}

-- A round that leads to another one has left `current` for its redirect target, and has recorded
-- `current` at the end of the chain; or it leads back to `current`, and has recorded nothing.
abbrev pub Goes : Text → List Text → Hop → Type 0
Goes current chain (return s e) = Unit
Goes current chain (visit s next) =
    (s.response.redirect_chain ≡ chain ++ current ∷ [])
    ⊎ ((next ≡ current) × (s.response.redirect_chain ≡ chain))

module _ (w : World) (c : Config) where
  classify-Goes :
      (current : Text) (status : ℕ) (body : Text) (r : Run)
      → Goes current r.response.redirect_chain (classify w c current status body r)
  unfolding classify
  classify-Goes current status body r = ground arith

  follow-Goes :
      (hop : ℕ) (current : Text) (parsed : Url) (loc : Text) (r : Run)
      → Goes current r.response.redirect_chain (follow w c hop current parsed loc r)
  unfolding follow
  follow-Goes hop current parsed loc r = ground arith

  judge-Goes :
      (hop : ℕ) (current : Text) (parsed : Url) (resp : Response) (body : Text) (r : Run)
      → Goes current r.response.redirect_chain (judge w c hop current parsed resp body r)
  unfolding judge
  judge-Goes hop current parsed resp body r = ground (
    arith,
    follow-Goes hop current parsed resp.location r,
    classify-Goes current resp.status body r,
  )

  receive-Goes :
      (hop : ℕ) (current : Text) (parsed : Url) (resp : Response) (body : Text) (r : Run)
      → Goes current r.response.redirect_chain (receive w c hop current parsed resp body r)
  unfolding receive
  receive-Goes hop current parsed resp body r = elim (Option-cases (resp.close_error)) [
    | inl e ↦ rw (e, receive) (judge-Goes hop current parsed resp body r)
    | inr (f, e) ↦ rw (e, receive) (judge-Goes hop current parsed resp body _)
  ]

  respond-Goes :
      (hop : ℕ) (current : Text) (parsed : Url) (r : Run) (result : Result Response)
      → Goes current r.response.redirect_chain (respond w c hop current parsed (r, result))
  unfolding respond
  respond-Goes hop current parsed r (err e) = tt
  respond-Goes hop current parsed r (ok resp) = elim (Result-cases (resp.body)) [
    | inl (e, p) ↦ rw (p, respond) tt
    | inr (body, p) ↦ rw (p, respond) (receive-Goes hop current parsed resp body _)
  ]

  do_request-response :
      (url host : Text) (r : Run) → (do_request w url host r).0.response ≡ r.response
  unfolding do_request
  do_request-response url host r = ground arith

  send-Goes :
      (hop : ℕ) (current : Text) (parsed : Url) (r : Run)
      → Goes current r.response.redirect_chain (send w c hop current parsed r)
  unfolding send
  send-Goes hop current parsed r =
      elim (Result-cases (resolve_and_validate w r.moment parsed.hostname)) [
        | inl (e, p) ↦ rw (p, send) tt
        | inr (ip, p) ↦ elim (Option-cases (w.request_error current)) [
          | inl sent ↦
              let t : Run = record r { moment = suc r.moment } in
              let d = do_request w current parsed.hostname t in
              rw (p, send)
                (rw (sent, send)
                  (subst (λ x. Goes current x.redirect_chain (respond w c hop current parsed d))
                    (do_request-response current parsed.hostname t)
                    (respond-Goes hop current parsed d.0 d.1)))
          | inr (e, unsent) ↦ rw (p, send) (rw (unsent, send) tt)
        ]
      ]

  -- A round that leads to another one has appended the URL that it leaves to the chain of
  -- redirects; or it leads to the same URL again and has appended nothing.
  pub hop_step-Goes :
      (hop : ℕ) (current : Text) (r : Run)
      → Goes current r.response.redirect_chain (hop_step w c hop current r)
  unfolding hop_step
  hop_step-Goes hop current r = elim (Result-cases (w.parse current)) [
    | inl (e, p) ↦ rw (p, hop_step) tt
    | inr (parsed, p) ↦ rw (p, hop_step) (send-Goes hop current parsed r)
  ]
