-- ===== src/Fetch/Engine/Loop.antt =====
-- One round of the retry loop: what it may do to a fetch, and what it may answer.
use source_rudder.Prelude.{
  ℕ, suc, ◌+◌, ◌≤◌, ◌<◌, ◌≡◌, refl, ◌∙◌, ◌⊎◌, inl, inr, Option, none, some, arith, leb, Bool-cases,
  Option-cases, length, All, ℤ, pos, pos_part, ◌+ℤ◌, ◌≤ℤ◌, Text,
}
use source_rudder.Types.{Failure, Outcome, unset, success, blocked_redirect}
use source_rudder.Fetch.Config.{Config}
use source_rudder.Fetch.Retry.Backoff.{backoff_delay-ge_base}
use source_rudder.Fetch.World.{World, Run}
use source_rudder.Fetch.World.Resolve.{AllPublic}
use source_rudder.Fetch.Redirect.Step.{Quiet, Agrees}
use source_rudder.Fetch.Redirect.Walk.{
  Walk, manual_redirect_fetch-Walk, manual_redirect_fetch-Agrees,
}
use source_rudder.Fetch.Engine.{
  manual_redirect_fetch, attempt_fetch, attempt_step, Turn, finish, retry, conclude, pause,
}

abbrev pub run_of : Turn → Run
run_of (finish r e) = r
run_of (retry r e) = r

-- The rounds of one attempt.
abbrev pub hops : Config → ℕ
hops c = pos_part (c.max_redirects +ℤ pos 1)

-- The outcomes that a fetch gives to an error: all but unset, success and blocked-redirect.
abbrev pub IsError : Outcome → Type 0
IsError unset = ⊥
IsError success = ⊥
IsError blocked_redirect = ⊥
IsError _ = Unit

-- A fetch without an error is a success with a status of the 200s, and one with an error is not.
abbrev pub Answers : Run → Option Failure → Type 0
Answers r none =
    (r.response.outcome ≡ success) × (200 ≤ r.response.status) × (r.response.status < 300)
Answers r (some e) = IsError r.response.outcome

abbrev pub TurnAnswers : Turn → Type 0
TurnAnswers (finish r e) = Answers r e
TurnAnswers (retry r e) = Unit

-- What one turn does: it dials public addresses only, requests at most n URLs, counts itself, and
-- waits at most once, for at least the base delay, and only after the first attempt.
pub record Turned (base : ℤ) (n attempt : ℕ) (r s : Run) : Type 0 where
  pub public_dials : AllPublic r.dials → AllPublic s.dials
  pub few_requests : length s.requests ≤ length r.requests + n
  pub counted : s.response.attempts ≡ attempt
  pub long_waits : All (λ d. base ≤ℤ d) r.waits → All (λ d. base ≤ℤ d) s.waits
  pub few_waits :
      (length s.waits ≤ length r.waits) ⊎ ((2 ≤ attempt) × (length s.waits ≤ length r.waits + 1))

-- A pause waits at most once.
pub record Paused (base : ℤ) (attempt : ℕ) (r s : Run) : Type 0 where
  pub same_dials : s.dials ≡ r.dials
  pub same_requests : s.requests ≡ r.requests
  pub same_attempts : s.response.attempts ≡ r.response.attempts
  pub long_waits : All (λ d. base ≤ℤ d) r.waits → All (λ d. base ≤ℤ d) s.waits
  pub few_waits :
      (length s.waits ≤ length r.waits) ⊎ ((2 ≤ attempt) × (length s.waits ≤ length r.waits + 1))

module _ (w : World) (c : Config) (url : Text) where
  conclude-Quiet :
      (r : Run) (result : Option Failure) → Quiet r (run_of (conclude w c url (r, result)))
  unfolding conclude
  conclude-Quiet r result = ground arith

  conclude-Answers :
      (r : Run) (result : Option Failure)
      → Agrees r result
      → TurnAnswers (conclude w c url (r, result))
  unfolding conclude
  conclude-Answers r none h = ground arith
  conclude-Answers r (some e) h = ground arith

  pause-Paused : (attempt : ℕ) (r : Run) → Paused c.base_backoff attempt r (pause w c attempt r).0
  unfolding pause
  pause-Paused attempt r = elim (Bool-cases (leb attempt 1)) [
    | inl first ↦ rw first (record {
      same_dials = refl;
      same_requests = refl;
      same_attempts = refl;
      long_waits = λ h. h;
      few_waits = omega arith;
    })
    | inr later ↦ rw later (record {
      same_dials = refl;
      same_requests = refl;
      same_attempts = refl;
      long_waits = λ h. (backoff_delay-ge_base c.base_backoff attempt, h);
      few_waits = inr (ground arith, omega arith);
    })
  ]

  fetch-Turned :
      (attempt : ℕ) (r s : Run) (e : Option Failure)
      → Paused c.base_backoff attempt r s
      → r.response.attempts ≡ attempt
      → Turned c.base_backoff (hops c) attempt r (run_of (attempt_fetch w c url (s, e)))
  unfolding attempt_fetch
  fetch-Turned attempt r s (some e) p h = record {
    public_dials = λ d. rw p.same_dials d;
    few_requests = ground (arith, p.same_requests);
    counted = p.same_attempts ∙ h;
    long_waits = p.long_waits;
    few_waits = p.few_waits;
  }
  fetch-Turned attempt r s none p h = record {
    public_dials = λ d. rw q.same_dials (m.public_dials (rw p.same_dials d));
    few_requests = ground (arith, q.same_requests, m.few_requests, p.same_requests);
    counted = q.same_attempts ∙ (m.same_attempts ∙ (p.same_attempts ∙ h));
    long_waits = λ d. rw (q.same_waits ∙ m.same_waits) (p.long_waits d);
    few_waits = rw (q.same_waits ∙ m.same_waits) p.few_waits;
  }
    where
      fetched : Run × Option Failure
      fetched = manual_redirect_fetch w c url s

      m : Walk (pos_part (c.max_redirects +ℤ pos 1)) s fetched.0
      m = manual_redirect_fetch-Walk w c url s

      q : Quiet fetched.0 (run_of (conclude w c url fetched))
      q = conclude-Quiet fetched.0 fetched.1

  pub attempt_step-Turned :
      (attempt : ℕ) (r : Run)
      → Turned c.base_backoff (hops c) attempt r (run_of (attempt_step w c url attempt r))
  unfolding attempt_step
  attempt_step-Turned attempt r = elim (Option-cases (w.context_error r.moment)) [
    | inl live ↦
        rw (live, attempt_step)
          (let s : Run = record r {
            moment = suc r.moment;
            response = record (r.response) { attempts = attempt };
          } in
            let t =
              fetch-Turned attempt s (pause w c attempt s).0 (pause w c attempt s).1
                (pause-Paused attempt s) refl in
            record {
              public_dials = t.public_dials;
              few_requests = t.few_requests;
              counted = t.counted;
              long_waits = t.long_waits;
              few_waits = t.few_waits;
            })
    | inr (e, over) ↦
        rw (over, attempt_step)
          (record {
            public_dials = λ d. d;
            few_requests = omega arith;
            counted = refl;
            long_waits = λ d. d;
            few_waits = inl (omega arith);
          })
  ]

  fetch-Answers : (s : Run) (e : Option Failure) → TurnAnswers (attempt_fetch w c url (s, e))
  unfolding attempt_fetch
  fetch-Answers s (some e) = tt
  fetch-Answers s none = conclude-Answers _ _ (manual_redirect_fetch-Agrees w c url s)

  pub attempt_step-Answers : (attempt : ℕ) (r : Run) → TurnAnswers (attempt_step w c url attempt r)
  unfolding attempt_step
  attempt_step-Answers attempt r = elim (Option-cases (w.context_error r.moment)) [
    | inl live ↦ rw (live, attempt_step) (fetch-Answers _ _)
    | inr (e, over) ↦ rw (over, attempt_step) tt
  ]
