-- ===== src/Fetch/Engine.antt =====
-- doFetchWithRetries of internal/fetch/fetcher.go: attempts with a bounded backoff between them.
pub mod Loop
pub mod Contract
pub mod Stale
use source_rudder.Prelude.{
  ℕ, zero, suc, Bool, true, false, Option, none, some, ◌∷◌, ◌++◌, leb, if◌then◌else◌, pos_part,
  Text, bytes, show_nat,
}
use source_rudder.Types.{
  Failure, Result, FetchResponse, ok, err, Outcome, unset, timeout,
  transient_failure_retried_exhausted,
}
use source_rudder.Fetch.Config.{Config}
use source_rudder.Fetch.Retry.{is_timeout_err, should_retry, backoff_delay, outcome_from_err}
use source_rudder.Fetch.World.{World, Run}
use source_rudder.Fetch.Redirect.{noted, warned, manual_redirect_fetch}

-- How one attempt ends: the function returns, or the error is to be retried.
pub data Turn : Type 0 where
  finish : Run → Option Failure → Turn
  retry : Run → Failure → Turn

abbrev is_unset : Outcome → Bool
is_unset unset = true
is_unset _ = false

abbrev pub tick : Run → Run
tick r = record r { moment = suc r.moment }

abbrev with_outcome : Run → Outcome → Run
with_outcome r o = record r { response = record (r.response) { outcome = o } }

-- fmt.Sprintf("%v", lastErr)
abbrev shown_error : Option Failure → Text
shown_error none = bytes "<nil>"
shown_error (some e) = e.message

module _ (w : World) (c : Config) where
  -- The wait before an attempt, skipped before the first: none, or the context's error.
  pub pause : ℕ → Run → Run × Option Failure
  pause attempt r = if leb attempt 1 then (r, none) else (
    record r { moment = suc r.moment; waits = backoff_delay c.base_backoff attempt ∷ r.waits },
    w.await_timer r.moment (backoff_delay c.base_backoff attempt),
  )

module _ (w : World) (c : Config) (url : Text) where
  -- After manualRedirectFetch: a canceled context ends the fetch, success returns, and an error is
  -- retried or classified.
  pub conclude : Run × Option Failure → Turn
  conclude (r, result) =
      let fetched : Turn = elim result [
        | none ↦ finish (tick r) none
        | some e ↦
            if should_retry r.response.status e
            then retry (tick r) e
            else finish
                (if is_unset r.response.outcome
                  then with_outcome (tick r) (outcome_from_err (some e))
                  else tick r)
                (some e)
      ] in
      elim (w.context_error r.moment) [
        | none ↦ fetched
        | some e ↦
            if e.canceled then finish (noted (tick r) timeout e.message) (some e) else fetched
      ]

  -- From the wait on.
  pub attempt_fetch : Run × Option Failure → Turn
  attempt_fetch (r, some e) = finish (noted r timeout e.message) (some e)
  attempt_fetch (r, none) = conclude (manual_redirect_fetch w c url r)

  -- One round of the loop.
  pub attempt_step : ℕ → Run → Turn
  attempt_step attempt r =
      let counted : Run = record r {
        moment = suc r.moment;
        response = record (r.response) { attempts = attempt };
      } in
      elim (w.context_error r.moment) [
        | some e ↦ finish (noted counted timeout e.message) (some e)
        | none ↦ attempt_fetch (pause w c attempt counted)
      ]

  -- The budget is spent.
  pub exhausted : Run → Option Failure → Run × Option Failure
  exhausted r last =
      let storm = noted r transient_failure_retried_exhausted (
        bytes "retries exhausted after "
        ++ (show_nat (pos_part c.max_attempts) ++ (bytes " attempts: " ++ shown_error last))) in
      elim last [
        | none ↦ (storm, none)
        | some e ↦ if is_timeout_err e then (with_outcome r timeout, some e) else (storm, some e)
      ]

  -- The attempts that are left, from the number `attempt` on; `last` is lastErr.
  pub attempts_loop : ℕ → ℕ → Option Failure → Run → Run × Option Failure
  attempts_loop zero attempt last r = exhausted r last
  attempts_loop (suc n) attempt last r = elim (attempt_step attempt r) [
    | finish s e ↦ (s, e)
    | retry s e ↦ attempts_loop n (suc attempt) (some e) s
  ]

  -- A slot of the semaphore is taken first, and given back by the deferred receive at the end.
  pub do_fetch_with_retries : Run → Run × Option Failure
  do_fetch_with_retries r = elim (w.await_slot r.moment) [
    | some e ↦ (noted (tick r) timeout e.message, some e)
    | none ↦ attempts_loop (pos_part c.max_attempts) 1 none (tick r)
  ]
