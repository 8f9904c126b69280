-- ===== src/Fetch/Engine/Contract.antt =====
-- The whole fetch: what doFetchWithRetries promises for any network, resolver, context and URL.
use mathlib.Core.Path.{subst}
use source_rudder.Prelude.{
  ℕ, zero, suc, ◌+◌, ◌-◌, ◌*◌, ◌≤◌, ◌<◌, ◌≡◌, refl, ◌≢◌, ◌⊎◌, inl, inr, Option, none, some, [],
  arith, Option-cases, length, All, ℤ, pos, pos_part, ◌+ℤ◌, ◌≤ℤ◌, ◌<ℤ◌, Text,
}
use source_rudder.Types.{unset, Failure}
use source_rudder.Fetch.Config.{Config}
use source_rudder.Fetch.World.{World, Run}
use source_rudder.Fetch.World.Resolve.{AllPublic}
use source_rudder.Fetch.Engine.{
  do_fetch_with_retries, Turn, finish, retry, attempt_step, exhausted, attempts_loop,
}
use source_rudder.Fetch.Engine.Loop.{
  run_of, Answers, TurnAnswers, hops, Turned, attempt_step-Turned, attempt_step-Answers,
}

Turn-cases :
    (t : Turn)
    → ((s : Run) × (e : Option Failure) × (t ≡ finish s e))
      ⊎ ((s : Run) × (e : Failure) × (t ≡ retry s e))
Turn-cases (finish s e) = inl (s, e, refl)
Turn-cases (retry s e) = inr (s, e, refl)

-- What the turns from `first` on to `first + n - 1` do to a fetch, of `m` rounds each.
pub record Fetched (base : ℤ) (m n first : ℕ) (r s : Run) : Type 0 where
  pub public_dials : AllPublic r.dials → AllPublic s.dials
  pub few_requests : length s.requests ≤ length r.requests + n * m
  pub few_attempts : (s.response.attempts < first + n) ⊎ (s.response.attempts ≡ r.response.attempts)
  pub long_waits : All (λ d. base ≤ℤ d) r.waits → All (λ d. base ≤ℤ d) s.waits
  pub few_waits : length s.waits ≤ length r.waits + n
  pub first_free : first ≤ 1 → length s.waits ≤ length r.waits + (n - 1)

Turned-Fetched :
    (base : ℤ) (m n first : ℕ) {r s : Run}
    → Turned base m first r s
    → Fetched base m (suc n) first r s
Turned-Fetched base m n first t = record {
  public_dials = t.public_dials;
  few_requests = grind arith;
  few_attempts = inl (ground arith);
  long_waits = t.long_waits;
  few_waits = ground arith;
  first_free = λ f. ground arith;
}

Turned-Fetched-trans :
    (base : ℤ) (m n first : ℕ) {r s t : Run}
    → Turned base m first r s
    → Fetched base m n (suc first) s t
    → Fetched base m (suc n) first r t
Turned-Fetched-trans base m n first a b = record {
  public_dials = λ d. b.public_dials (a.public_dials d);
  few_requests = grind arith;
  few_attempts = inl (ground arith);
  long_waits = λ d. b.long_waits (a.long_waits d);
  few_waits = ground arith;
  first_free = λ f. ground arith;
}

module _ (w : World) (c : Config) (url : Text) where
  exhausted-Fetched :
      (first : ℕ) (last : Option Failure) (r : Run)
      → Fetched c.base_backoff (hops c) 0 first r (exhausted w c url r last).0
  unfolding exhausted
  exhausted-Fetched first last r = record {
    public_dials = λ d. ground arith;
    few_requests = ground arith;
    few_attempts = inr (ground arith);
    long_waits = λ d. ground arith;
    few_waits = ground arith;
    first_free = λ f. ground arith;
  }

  loop-Fetched :
      (n first : ℕ) (last : Option Failure) (r : Run)
      → Fetched c.base_backoff (hops c) n first r (attempts_loop w c url n first last r).0
  unfolding attempts_loop
  loop-Fetched zero first last r = exhausted-Fetched first last r
  loop-Fetched (suc n) first last r = elim (Turn-cases (attempt_step w c url first r)) [
    | inl (s, e, p) ↦
        rw (p, attempts_loop)
          (Turned-Fetched c.base_backoff (hops c) n first (
            subst (λ t. Turned c.base_backoff (hops c) first r (run_of t)) p
              (attempt_step-Turned w c url first r)))
    | inr (s, e, p) ↦
        rw (p, attempts_loop)
          (Turned-Fetched-trans c.base_backoff (hops c) n first
            (subst (λ t. Turned c.base_backoff (hops c) first r (run_of t)) p
              (attempt_step-Turned w c url first r))
            (loop-Fetched n (suc first) (some e) s))
  ]

  exhausted-Answers :
      (e : Failure) (r : Run)
      → Answers (exhausted w c url r (some e)).0 (exhausted w c url r (some e)).1
  unfolding exhausted
  exhausted-Answers e r = ground arith

  loop-Answers :
      (n first : ℕ) (last : Option Failure) (r : Run)
      → (last ≢ none) ⊎ (0 < n)
      → Answers (attempts_loop w c url n first last r).0 (attempts_loop w c url n first last r).1
  unfolding attempts_loop
  loop-Answers zero first none r h = absurd (ground arith)
  loop-Answers zero first (some e) r h = exhausted-Answers e r
  loop-Answers (suc n) first last r h = elim (Turn-cases (attempt_step w c url first r)) [
    | inl (s, e, p) ↦
        rw (p, attempts_loop) (subst TurnAnswers p (attempt_step-Answers w c url first r))
    | inr (s, e, p) ↦ rw (p, attempts_loop) (loop-Answers n (suc first) (some e) s (inl (λ q. cc)))
  ]

-- A fetch that has not begun.
abbrev pub start : Text → Run
start url = record {
  response = record {
    url = url;
    title = [];
    content = [];
    metadata = [];
    warnings = [];
    outcome = unset;
    status = 0;
    redirect_chain = [];
    attempts = 0;
  };
  moment = 0;
  dials = [];
  requests = [];
  waits = [];
}

module _ (w : World) (c : Config) (url : Text) where
  fetch-Fetched :
      (r : Run)
      → Fetched c.base_backoff
          (hops c)
          (pos_part c.max_attempts)
          1
          r
          (do_fetch_with_retries w c url r).0
  unfolding do_fetch_with_retries
  fetch-Fetched r = elim (Option-cases (w.await_slot r.moment)) [
    | inl taken ↦
        rw (taken, do_fetch_with_retries)
          (let f =
              loop-Fetched w c url (pos_part c.max_attempts) 1 none
                (record r { moment = suc r.moment }) in
            record {
              public_dials = f.public_dials;
              few_requests = f.few_requests;
              few_attempts = f.few_attempts;
              long_waits = f.long_waits;
              few_waits = f.few_waits;
              first_free = f.first_free;
            })
    | inr (e, late) ↦
        rw (late, do_fetch_with_retries)
          (record {
            public_dials = λ d. d;
            few_requests = omega arith;
            few_attempts = inr refl;
            long_waits = λ d. d;
            few_waits = omega arith;
            first_free = λ f. omega arith;
          })
  ]

  -- Every address that a fetch dials is public, for every URL, network and resolver: also when a
  -- redirect leads elsewhere, when a name resolves anew between the check and the dial, and when
  -- the fetch fails.
  pub dials-AllPublic : AllPublic (do_fetch_with_retries w c url (start url)).0.dials
  dials-AllPublic = (fetch-Fetched (start url)).public_dials tt

  -- With at least one attempt allowed, a fetch requests at most MaxAttempts * (MaxRedirects + 1)
  -- URLs, counts at most MaxAttempts attempts, waits fewer times than MaxAttempts, and each time
  -- at least BaseBackoff.
  pub do_fetch_with_retries_bounds :
      pos 0 <ℤ c.max_attempts
      → let s = (do_fetch_with_retries w c url (start url)).0 in
        (length s.requests ≤ pos_part c.max_attempts * pos_part (c.max_redirects +ℤ pos 1))
        × (s.response.attempts ≤ pos_part c.max_attempts)
        × (length s.waits < pos_part c.max_attempts)
        × All (λ d. c.base_backoff ≤ℤ d) s.waits
  do_fetch_with_retries_bounds h =
      let f = fetch-Fetched (start url) in
      (
        omega (arith, f.few_requests),
        ground (arith, f.few_attempts),
        ground (arith, f.first_free (omega arith)),
        f.long_waits tt,
      )

  -- With at least one attempt allowed, a fetch that returns no error has the outcome success and a
  -- status of the 200s, and a fetch that returns an error has an outcome that is neither unset nor
  -- success nor blocked-redirect.
  pub do_fetch_with_retries-Answers :
      (r : Run)
      → pos 0 <ℤ c.max_attempts
      → Answers (do_fetch_with_retries w c url r).0 (do_fetch_with_retries w c url r).1
  unfolding do_fetch_with_retries
  do_fetch_with_retries-Answers r h = elim (Option-cases (w.await_slot r.moment)) [
    | inl taken ↦
        rw (taken, do_fetch_with_retries)
          (loop-Answers w c url (pos_part c.max_attempts) 1 none _ (inr (omega arith)))
    | inr (e, late) ↦ rw (late, do_fetch_with_retries) tt
  ]
