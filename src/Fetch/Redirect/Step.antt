-- ===== src/Fetch/Redirect/Step.antt =====
-- One round of an attempt: what it may do to a fetch in progress.
use source_rudder.Prelude.{
  ℕ, ◌≤◌, ◌<◌, ◌≡◌, refl, inl, inr, Option, none, some, ◌++◌, arith, Option-cases, Text, bytes,
}
use source_rudder.Types.{
  Result-cases, Failure, Outcome, unset, success, blocked_redirect,
  transient_failure_retried_exhausted,
}
use source_rudder.Fetch.Config.{Config}
use source_rudder.Fetch.World.{Url, World, Run}
use source_rudder.Fetch.Redirect.{
  ok, err, Result, judge, respond, warned, Response, receive, Hop, return, visit, classify, follow,
}

abbrev pub run_of : Hop → Run
run_of (return r e) = r
run_of (visit r next) = r

-- Two moments of a fetch between which nothing was dialed, requested or waited for.
pub record Quiet (r s : Run) : Type 0 where
  pub same_dials : s.dials ≡ r.dials
  pub same_requests : s.requests ≡ r.requests
  pub same_waits : s.waits ≡ r.waits
  pub same_attempts : s.response.attempts ≡ r.response.attempts

-- The outcomes that an attempt gives to an error.
abbrev pub IsFailure : Outcome → Type 0
IsFailure unset = ⊥
IsFailure success = ⊥
IsFailure blocked_redirect = ⊥
IsFailure transient_failure_retried_exhausted = ⊥
IsFailure _ = Unit

-- An attempt that returns no error is a success with a status of the 200s; one that returns an error
-- has an outcome of its own.
abbrev pub Agrees : Run → Option Failure → Type 0
Agrees r none =
    (r.response.outcome ≡ success) × (200 ≤ r.response.status) × (r.response.status < 300)
Agrees r (some e) = IsFailure r.response.outcome

abbrev pub HopAgrees : Hop → Type 0
HopAgrees (return r e) = Agrees r e
HopAgrees (visit r next) = Unit

module _ (w : World) (c : Config) where
  classify-Quiet :
      (current : Text) (status : ℕ) (body : Text) (r : Run)
      → Quiet r (run_of (classify w c current status body r))
  unfolding classify
  classify-Quiet current status body r = ground arith

  classify-Agrees :
      (current : Text) (status : ℕ) (body : Text) (r : Run)
      → r.response.status ≡ status
      → HopAgrees (classify w c current status body r)
  unfolding classify
  classify-Agrees current status body r h = ground arith

  follow-Quiet :
      (hop : ℕ) (current : Text) (parsed : Url) (loc : Text) (r : Run)
      → Quiet r (run_of (follow w c hop current parsed loc r))
  unfolding follow
  follow-Quiet hop current parsed loc r = ground arith

  follow-Agrees :
      (hop : ℕ) (current : Text) (parsed : Url) (loc : Text) (r : Run)
      → HopAgrees (follow w c hop current parsed loc r)
  unfolding follow
  follow-Agrees hop current parsed loc r = ground arith

  judge-Quiet :
      (hop : ℕ) (current : Text) (parsed : Url) (resp : Response) (body : Text) (r : Run)
      → Quiet r (run_of (judge w c hop current parsed resp body r))
  unfolding judge
  judge-Quiet hop current parsed resp body r = ground (
    arith,
    follow-Quiet hop current parsed resp.location r,
    classify-Quiet current resp.status body r,
  )

  judge-Agrees :
      (hop : ℕ) (current : Text) (parsed : Url) (resp : Response) (body : Text) (r : Run)
      → r.response.status ≡ resp.status
      → HopAgrees (judge w c hop current parsed resp body r)
  unfolding judge
  judge-Agrees hop current parsed resp body r h = ground (
    arith,
    follow-Agrees hop current parsed resp.location r,
    classify-Agrees current resp.status body r h,
  )

  receive-Quiet :
      (hop : ℕ) (current : Text) (parsed : Url) (resp : Response) (body : Text) (r : Run)
      → Quiet r (run_of (receive w c hop current parsed resp body r))
  unfolding receive
  receive-Quiet hop current parsed resp body r = elim (Option-cases (resp.close_error)) [
    | inl e ↦ rw (e, receive) (judge-Quiet hop current parsed resp body r)
    | inr (f, e) ↦
        rw (e, receive)
          (ground (
            arith,
            judge-Quiet hop current parsed resp body
                (warned r (bytes "close response body: " ++ f.message)),
          ))
  ]

  receive-Agrees :
      (hop : ℕ) (current : Text) (parsed : Url) (resp : Response) (body : Text) (r : Run)
      → r.response.status ≡ resp.status
      → HopAgrees (receive w c hop current parsed resp body r)
  unfolding receive
  receive-Agrees hop current parsed resp body r h = elim (Option-cases (resp.close_error)) [
    | inl e ↦ rw (e, receive) (judge-Agrees hop current parsed resp body r h)
    | inr (f, e) ↦ rw (e, receive) (judge-Agrees hop current parsed resp body _ h)
  ]

  pub respond-Quiet :
      (hop : ℕ) (current : Text) (parsed : Url) (r : Run) (result : Result Response)
      → Quiet r (run_of (respond w c hop current parsed (r, result)))
  unfolding respond
  respond-Quiet hop current parsed r (err e) = ground arith
  respond-Quiet hop current parsed r (ok resp) = elim (Result-cases (resp.body)) [
    | inl (e, p) ↦ rw (p, respond) (ground arith)
    | inr (body, p) ↦
        rw (p, respond)
          (ground (
            arith,
            receive-Quiet hop current parsed resp body
                (record r { response = record (r.response) { status = resp.status } }),
          ))
  ]

  pub respond-Agrees :
      (hop : ℕ) (current : Text) (parsed : Url) (r : Run) (result : Result Response)
      → HopAgrees (respond w c hop current parsed (r, result))
  unfolding respond
  respond-Agrees hop current parsed r (err e) = ground arith
  respond-Agrees hop current parsed r (ok resp) = elim (Result-cases (resp.body)) [
    | inl (e, p) ↦ rw (p, respond) (ground arith)
    | inr (body, p) ↦ rw (p, respond) (receive-Agrees hop current parsed resp body _ refl)
  ]
