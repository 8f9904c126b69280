-- ===== src/Fetch/Redirect/Walk.antt =====
-- A whole attempt: the rounds of manualRedirectFetch together.
use source_rudder.Prelude.{
  ℕ, zero, suc, ◌+◌, ◌≤◌, ◌≡◌, refl, ◌∙◌, ◌⊎◌, inl, inr, true, Option, arith, Bool-cases,
  Option-cases, length, pos, pos_part, ◌+ℤ◌, Text,
}
use mathlib.Core.Path.{subst}
use source_rudder.Types.{Failure, Result, ok, Result-cases}
use source_rudder.Fetch.Address.{Ip, is_public_ip}
use source_rudder.Fetch.Config.{Config}
use source_rudder.Fetch.World.{Url, Response, World, Run, resolve_and_validate, do_request}
use source_rudder.Fetch.World.Resolve.{AllPublic, resolve_and_validate_iff}
use source_rudder.Fetch.Redirect.{
  Hop, return, visit, respond, send, hop_step, rounds, manual_redirect_fetch,
}
use source_rudder.Fetch.Redirect.Step.{
  run_of, Quiet, respond-Quiet, respond-Agrees, Agrees, HopAgrees,
}

-- What at most n rounds do to a fetch: they dial public addresses only, request at most n URLs, and
-- neither wait nor count attempts.
pub record Walk (n : ℕ) (r s : Run) : Type 0 where
  pub public_dials : AllPublic r.dials → AllPublic s.dials
  pub few_requests : length s.requests ≤ length r.requests + n
  pub same_waits : s.waits ≡ r.waits
  pub same_attempts : s.response.attempts ≡ r.response.attempts

Walk-trans : (m n : ℕ) {r s t : Run} → Walk m r s → Walk n s t → Walk (m + n) r t
Walk-trans m n a b = record {
  public_dials = λ h. b.public_dials (a.public_dials h);
  few_requests = omega arith;
  same_waits = b.same_waits ∙ a.same_waits;
  same_attempts = b.same_attempts ∙ a.same_attempts;
}

Walk-more : (m n : ℕ) {r s : Run} → m ≤ n → Walk m r s → Walk n r s
Walk-more m n h a = record {
  public_dials = a.public_dials;
  few_requests = omega arith;
  same_waits = a.same_waits;
  same_attempts = a.same_attempts;
}

Quiet-Walk : {r s : Run} → Quiet r s → Walk 0 r s
Quiet-Walk q = record {
  public_dials = λ h. rw q.same_dials h;
  few_requests = ground arith;
  same_waits = q.same_waits;
  same_attempts = q.same_attempts;
}

Hop-cases :
    (h : Hop)
    → ((s : Run) × (e : Option Failure) × (h ≡ return s e))
      ⊎ ((s : Run) × (next : Text) × (h ≡ visit s next))
Hop-cases (return s e) = inl (s, e, refl)
Hop-cases (visit s next) = inr (s, next, refl)

module _ (w : World) where
  public_of_ok :
      (moment : ℕ) (host : Text) (ip : Ip)
      → resolve_and_validate w moment host ≡ ok ip
      → is_public_ip ip ≡ true
  public_of_ok moment host ip h = ((resolve_and_validate_iff w moment host ip).0 h).2.0

  do_request-Walk : (url host : Text) (r : Run) → Walk 1 r (do_request w url host r).0
  unfolding do_request
  do_request-Walk url host r = elim (Bool-cases (w.reuses r.moment)) [
    | inl idle ↦ rw idle (record {
      public_dials = λ h. h;
      few_requests = omega arith;
      same_waits = refl;
      same_attempts = refl;
    })
    | inr fresh ↦ rw fresh (elim (Result-cases (resolve_and_validate w r.moment host)) [
      | inl (e, p) ↦
          rw (p, do_request)
            (record {
              public_dials = λ h. h;
              few_requests = omega arith;
              same_waits = refl;
              same_attempts = refl;
            })
      | inr (ip, p) ↦
          rw (p, do_request)
            (record {
              public_dials = λ h. (public_of_ok r.moment host ip p, h);
              few_requests = omega arith;
              same_waits = refl;
              same_attempts = refl;
            })
    ])
  ]

  module _ (c : Config) where
    respond-Walk :
        (hop : ℕ) (current : Text) (parsed : Url) (x : Run × Result Response)
        → Walk 0 x.0 (run_of (respond w c hop current parsed x))
    respond-Walk hop current parsed (r, result) =
        Quiet-Walk (respond-Quiet w c hop current parsed r result)

    send-Walk :
        (hop : ℕ) (current : Text) (parsed : Url) (r : Run)
        → Walk 1 r (run_of (send w c hop current parsed r))
    unfolding send
    send-Walk hop current parsed r =
        elim (Result-cases (resolve_and_validate w r.moment parsed.hostname)) [
          | inl (e, p) ↦ rw (p, send) (Walk-more 0 1 (omega arith) (Quiet-Walk (ground arith)))
          | inr (ip, p) ↦ elim (Option-cases (w.request_error current)) [
            | inl sent ↦
                let t : Run = record r { moment = suc r.moment } in
                let d = do_request w current parsed.hostname t in
                rw (p, send)
                  (rw (sent, send)
                    (Walk-trans 0 1 {r = r} {s = t} (Quiet-Walk (ground arith)) (
                      Walk-trans 1 0 (do_request-Walk current parsed.hostname t)
                        (respond-Walk hop current parsed d))))
            | inr (e, unsent) ↦
                rw (p, send)
                  (rw (unsent, send) (Walk-more 0 1 (omega arith) (Quiet-Walk (ground arith))))
          ]
        ]

    send-Agrees :
        (hop : ℕ) (current : Text) (parsed : Url) (r : Run)
        → HopAgrees (send w c hop current parsed r)
    unfolding send
    send-Agrees hop current parsed r =
        elim (Result-cases (resolve_and_validate w r.moment parsed.hostname)) [
          | inl (e, p) ↦ rw (p, send) tt
          | inr (ip, p) ↦ elim (Option-cases (w.request_error current)) [
            | inl sent ↦ rw (p, send) (rw (sent, send) (respond-Agrees w c hop current parsed _ _))
            | inr (e, unsent) ↦ rw (p, send) (rw (unsent, send) tt)
          ]
        ]

    pub hop_step-Walk :
        (hop : ℕ) (current : Text) (r : Run) → Walk 1 r (run_of (hop_step w c hop current r))
    unfolding hop_step
    hop_step-Walk hop current r = elim (Result-cases (w.parse current)) [
      | inl (e, p) ↦ rw (p, hop_step) (Walk-more 0 1 (omega arith) (Quiet-Walk (ground arith)))
      | inr (parsed, p) ↦ rw (p, hop_step) (send-Walk hop current parsed r)
    ]

    pub hop_step-Agrees :
        (hop : ℕ) (current : Text) (r : Run) → HopAgrees (hop_step w c hop current r)
    unfolding hop_step
    hop_step-Agrees hop current r = elim (Result-cases (w.parse current)) [
      | inl (e, p) ↦ rw (p, hop_step) tt
      | inr (parsed, p) ↦ rw (p, hop_step) (send-Agrees hop current parsed r)
    ]

    rounds-Walk : (n hop : ℕ) (current : Text) (r : Run) → Walk n r (rounds w c n hop current r).0
    unfolding rounds
    rounds-Walk zero hop current r = Quiet-Walk (ground arith)
    rounds-Walk (suc n) hop current r = elim (Hop-cases (hop_step w c hop current r)) [
      | inl (s, e, p) ↦
          rw (p, rounds)
            (Walk-more 1 (suc n) (omega arith)
              (subst (λ h. Walk 1 r (run_of h)) p (hop_step-Walk hop current r)))
      | inr (s, next, p) ↦
          rw (p, rounds)
            (Walk-more (1 + n) (suc n) (omega arith) (
              Walk-trans 1 n (subst (λ h. Walk 1 r (run_of h)) p (hop_step-Walk hop current r))
                (rounds-Walk n (suc hop) next s)))
    ]

    rounds-Agrees :
        (n hop : ℕ) (current : Text) (r : Run)
        → Agrees (rounds w c n hop current r).0 (rounds w c n hop current r).1
    unfolding rounds
    rounds-Agrees zero hop current r = tt
    rounds-Agrees (suc n) hop current r = elim (Hop-cases (hop_step w c hop current r)) [
      | inl (s, e, p) ↦ rw (p, rounds) (subst HopAgrees p (hop_step-Agrees hop current r))
      | inr (s, next, p) ↦ rw (p, rounds) (rounds-Agrees n (suc hop) next s)
    ]

    -- One attempt dials public addresses only if those dialed before it were public, whatever the
    -- redirects; it requests at most MaxRedirects + 1 URLs, and neither waits nor counts attempts.
    pub manual_redirect_fetch-Walk :
        (url : Text) (r : Run)
        → Walk (pos_part (c.max_redirects +ℤ pos 1)) r (manual_redirect_fetch w c url r).0
    unfolding manual_redirect_fetch
    manual_redirect_fetch-Walk url r = rounds-Walk _ 0 url r

    -- An attempt without an error is a success with a status of the 200s; an attempt with an error
    -- has set an outcome of its own, which is not blocked-redirect.
    pub manual_redirect_fetch-Agrees :
        (url : Text) (r : Run)
        → Agrees (manual_redirect_fetch w c url r).0 (manual_redirect_fetch w c url r).1
    unfolding manual_redirect_fetch
    manual_redirect_fetch-Agrees url r = rounds-Agrees _ 0 url r
