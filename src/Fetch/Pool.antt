-- ===== src/Fetch/Pool.antt =====
-- CheckLinkStatus of internal/fetch/fetcher.go: the workers that share the channel of jobs, as steps
-- in any order. The channel has no buffer, so a job that is sent is held by a worker at once;
-- workers that hold nothing are alike, and are counted.
pub mod Filled
pub mod Finish
mod Tests
use source_rudder.Prelude.{
  ℕ, zero, suc, ◌≡◌, false, not, Option, none, some, List, [], ◌∷◌, ◌++◌, ltb, if◌then◌else◌,
  length, Text, bytes,
}
use source_rudder.Types.{Failure, plain_error, Result, ok, err}
use source_rudder.Fetch.Config.{Config}
use source_rudder.Fetch.World.{World}
use source_rudder.Fetch.Surface.{LinkStatus, check_link}

abbrev pub max_concurrent_fetches : ℕ
max_concurrent_fetches = 8

pub record Job : Type 0 where
  pub index : ℕ
  pub url : Text

pub record Pool : Type 0 where
  -- The jobs that are not sent yet; the channel is closed when there are none.
  pub pending : List Job
  -- The jobs that a worker holds.
  pub busy : List Job
  -- The workers that wait for a job.
  pub idle : ℕ
  -- The workers that have left the loop.
  pub gone : ℕ
  pub results : List (Option LinkStatus)

-- results[i] = x
unfoldable pub set_at {ℓ} : {A : Type ℓ} → ℕ → A → List A → List A
set_at i x [] = []
set_at zero x (y ∷ ys) = x ∷ ys
set_at (suc i) x (y ∷ ys) = y ∷ set_at i x ys

unfoldable pub jobs_from : ℕ → List Text → List Job
jobs_from i [] = []
jobs_from i (u ∷ us) = record { index = i; url = u } ∷ jobs_from (suc i) us

unfoldable pub no_results : List Text → List (Option LinkStatus)
no_results [] = []
no_results (u ∷ us) = none ∷ no_results us

-- The number of workers.
unfoldable pub workers_for : List Text → ℕ
workers_for urls =
    if ltb (length urls) max_concurrent_fetches then length urls else max_concurrent_fetches

-- When the workers are started.
unfoldable pub first_pool : List Text → Pool
first_pool urls = record {
  pending = jobs_from 0 urls;
  busy = [];
  idle = workers_for urls;
  gone = 0;
  results = no_results urls;
}

unfoldable pub start_pool : List Text → Result Pool
start_pool urls =
    if ltb 100 (length urls)
    then err (plain_error (bytes "url count exceeds 100"))
    else ok (first_pool urls)

-- What a worker may make of a URL: the check, or the end of the context.
pub data LinkVerdict (raw : Text) : LinkStatus → Type 0 where
  checked : (w : World) (c : Config) → LinkVerdict raw (check_link w c raw)
  cancelled :
      (e : Text) → LinkVerdict raw (record { url = raw; valid = false; status = 0; error = e })

pub data Step : Pool → Pool → Type 0 where
  hand :
      {j : Job} {js busy : List Job} {idle gone : ℕ} {results : List (Option LinkStatus)}
      → Step
          (record {
            pending = j ∷ js;
            busy = busy;
            idle = suc idle;
            gone = gone;
            results = results;
          })
          (record { pending = js; busy = j ∷ busy; idle = idle; gone = gone; results = results })
  finish :
      (before : List Job) (j : Job) (after : List Job) {pending : List Job} {idle gone : ℕ}
      {results : List (Option LinkStatus)} {r : LinkStatus}
      → LinkVerdict j.url r
      → Step
          (record {
            pending = pending;
            busy = before ++ j ∷ after;
            idle = idle;
            gone = gone;
            results = results;
          })
          (record {
            pending = pending;
            busy = before ++ after;
            idle = suc idle;
            gone = gone;
            results = set_at j.index (some r) results;
          })
  leave :
      {busy : List Job} {idle gone : ℕ} {results : List (Option LinkStatus)}
      → Step
          (record { pending = []; busy = busy; idle = suc idle; gone = gone; results = results })
          (record { pending = []; busy = busy; idle = idle; gone = suc gone; results = results })

pub data Reach (s : Pool) : Pool → Type 0 where
  here : Reach s s
  later : {t u : Pool} → Reach s t → Step t u → Reach s u

-- When wg.Wait returns.
abbrev pub IsFinished : List Text → Pool → Type 0
IsFinished urls s = s.gone ≡ workers_for urls
