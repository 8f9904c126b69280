-- ===== src/Fetch/Pool/Finish.antt =====
-- CheckLinkStatus ends, and with an answer to every URL, in whatever order its workers go on.
use source_rudder.Prelude.{
  ℕ, zero, suc, ◌+◌, ◌*◌, ◌≤◌, ◌<◌, ◌≡◌, refl, ◌⊎◌, inl, inr, true, ◌||◌, some, List, [], ◌∷◌,
  arith, length, get_elem?, length-append, All, Text,
}
use source_rudder.Fetch.Pool.{
  Job, Pool, jobs_from, no_results, workers_for, first_pool, Step, hand, finish, leave, Reach, here,
  later, IsFinished,
}
use source_rudder.Fetch.Pool.Filled.{has_job, get_lt, Answered, Inv, Reach-Inv}

jobs_from-of :
    (urls all : List Text) (k : ℕ)
    → ((i : ℕ) (u : Text) → get_elem? urls i ≡ some u → get_elem? all (k + i) ≡ some u)
    → All (λ j. get_elem? all j.index ≡ some j.url) (jobs_from k urls)
unfolding jobs_from
jobs_from-of [] all k h = tt
jobs_from-of (u ∷ us) all k h = (
  let e : k ≡ k + 0 = omega arith in rw e (h 0 u refl),
  jobs_from-of us all (suc k)
      λ i v g. let e : suc k + i ≡ k + suc i = omega arith in rw e (h (suc i) v g),
)

has_job-jobs_from :
    (urls : List Text) (k i : ℕ) (u : Text)
    → get_elem? urls i ≡ some u
    → has_job (k + i) (jobs_from k urls) ≡ true
unfolding jobs_from has_job
has_job-jobs_from [] k i u h = cc
has_job-jobs_from (v ∷ vs) k zero u h = ground arith
has_job-jobs_from (v ∷ vs) k (suc i) u h =
    let e : suc k + i ≡ k + suc i = omega arith in
    let found = has_job-jobs_from vs (suc k) i u h in ground (arith, rw e at found)

length-no_results : (urls : List Text) → length (no_results urls) ≡ length urls
unfolding no_results
length-no_results [] = refl
length-no_results (u ∷ us) = omega (arith, length-no_results us)

first_pool-Inv : (urls : List Text) → Inv urls (first_pool urls)
unfolding first_pool
first_pool-Inv urls = record {
  counted = omega arith;
  open_pending = inl refl;
  pending_of = jobs_from-of urls urls 0 λ i u g. let e : 0 + i ≡ i = omega arith in rw e g;
  busy_of = tt;
  sized = length-no_results urls;
  covered = λ i u g. inl (
      let e : 0 + i ≡ i = omega arith in
      let found = has_job-jobs_from urls 0 i u g in ground (arith, rw e at found));
}

-- How much is left to do.
abbrev pub work_left : Pool → ℕ
work_left s = 3 * length s.pending + 2 * length s.busy + s.idle

Step-work_left : {s t : Pool} → Step s t → work_left t < work_left s
Step-work_left hand = omega arith
Step-work_left (finish before j after v) =
    omega (arith, length-append before (j ∷ after), length-append before after)
Step-work_left leave = omega arith

abbrev pub steps : {s t : Pool} → Reach s t → ℕ
steps here = 0
steps (later r st) = suc (steps r)

steps-work_left : {s t : Pool} (r : Reach s t) → steps r + work_left t ≤ work_left s
steps-work_left here = omega arith
steps-work_left (later r st) = omega (arith, steps-work_left r, Step-work_left st)

length-jobs_from : (k : ℕ) (urls : List Text) → length (jobs_from k urls) ≡ length urls
unfolding jobs_from
length-jobs_from k [] = refl
length-jobs_from k (u ∷ us) = omega (arith, length-jobs_from (suc k) us)

workers_for_le : (urls : List Text) → workers_for urls ≤ 8
unfolding workers_for
workers_for_le urls = ground arith

workers_for-pos : (urls : List Text) → 0 < length urls → 0 < workers_for urls
unfolding workers_for
workers_for-pos urls h = ground (arith, h)

-- Nothing waits and nobody works when every worker has gone.
nobody_left :
    (urls : List Text) (i : ℕ) (pending busy : List Job) (idle gone : ℕ)
    → 0 < workers_for urls
    → gone ≡ workers_for urls
    → idle + length busy + gone ≡ workers_for urls
    → (gone ≡ 0) ⊎ (pending ≡ [])
    → (has_job i pending || has_job i busy) ≡ true
    → ⊥
unfolding has_job
nobody_left urls i [] [] idle gone p d n o c = cc
nobody_left urls i pending (b ∷ bs) idle gone p d n o c = omega (arith, d, n)
nobody_left urls i (j ∷ js) [] idle gone p d n (inl g) c = omega (arith, p, d, g)
nobody_left urls i (j ∷ js) [] idle gone p d n (inr q) c = cc

module _ (urls : List Text) {s : Pool} (r : Reach (first_pool urls) s) where
  -- Every sequence of steps of the workers of CheckLinkStatus from its start has at most three
  -- steps for each URL and eight more.
  pub check_link_status-ends : steps r ≤ 3 * length urls + 8
  unfolding first_pool
  check_link_status-ends =
      omega (arith, steps-work_left r, length-jobs_from 0 urls, workers_for_le urls)

  -- In whatever order the workers of CheckLinkStatus take, answer and leave, whichever links
  -- answer and whenever the context ends: when all of them have left, the slot of every URL holds
  -- an answer, and it is of that URL.
  pub check_link_status-answers :
      IsFinished urls s → (i : ℕ) (u : Text) → get_elem? urls i ≡ some u → Answered urls s i u
  check_link_status-answers done i u h =
      let inv = Reach-Inv urls r (first_pool-Inv urls) in
      elim (inv.covered i u h) [
        | inr a ↦ a
        | inl c ↦ absurd (
            nobody_left urls i s.pending s.busy s.idle s.gone
              (workers_for-pos urls (omega (arith, get_lt urls i u h))) done inv.counted
              inv.open_pending c)
      ]
