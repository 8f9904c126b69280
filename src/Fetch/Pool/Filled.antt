-- ===== src/Fetch/Pool/Filled.antt =====
-- Every URL is waiting, with a worker, or answered, at every moment of CheckLinkStatus.
use source_rudder.Prelude.{
  ℕ, zero, suc, ◌+◌, ◌<◌, ◌≡◌, refl, sym, ap, ◌∙◌, ◌≢◌, ◌⊎◌, inl, inr, Bool, true, false, ◌||◌,
  Option, some, List, [], ◌∷◌, ◌++◌, arith, ◌==◌, ==_iff, Bool-cases, Option-cases, length,
  get_elem?, length-append, All, Text,
}
use source_rudder.Fetch.Surface.{LinkStatus, validate_url_text, check_link, link_of}
use source_rudder.Fetch.Pool.{
  Job, Pool, set_at, workers_for, LinkVerdict, checked, cancelled, Step, hand, finish, leave, Reach,
  here, later,
}

-- Whether one of the jobs is that of the index.
unfoldable pub has_job : ℕ → List Job → Bool
has_job i [] = false
has_job i (j ∷ js) = (j.index == i) || has_job i js

length-set_at :
    (i : ℕ) (x : Option LinkStatus) (xs : List (Option LinkStatus))
    → length (set_at i x xs) ≡ length xs
unfolding set_at
length-set_at i x [] = refl
length-set_at zero x (y ∷ ys) = refl
length-set_at (suc i) x (y ∷ ys) = omega (arith, length-set_at i x ys)

get-set_at :
    (i : ℕ) (x : Option LinkStatus) (xs : List (Option LinkStatus))
    → i < length xs
    → get_elem? (set_at i x xs) i ≡ some x
unfolding set_at
get-set_at i x [] h = absurd (omega arith)
get-set_at zero x (y ∷ ys) h = refl
get-set_at (suc i) x (y ∷ ys) h = get-set_at i x ys (omega arith)

get-set_at_other :
    (i j : ℕ) (x : Option LinkStatus) (xs : List (Option LinkStatus))
    → i ≢ j
    → get_elem? (set_at j x xs) i ≡ get_elem? xs i
unfolding set_at
get-set_at_other i j x [] h = refl
get-set_at_other zero zero x (y ∷ ys) h = absurd (h refl)
get-set_at_other zero (suc j) x (y ∷ ys) h = refl
get-set_at_other (suc i) zero x (y ∷ ys) h = refl
get-set_at_other (suc i) (suc j) x (y ∷ ys) h = get-set_at_other i j x ys λ e. h (ap suc e)

pub get_lt {ℓ} :
    {A : Type ℓ} (xs : List A) (i : ℕ) (a : A) → get_elem? xs i ≡ some a → i < length xs
get_lt [] i a h = cc
get_lt (x ∷ xs) zero a h = omega arith
get_lt (x ∷ xs) (suc i) a h = omega (arith, get_lt xs i a h)

some_inj : {t u : Text} → some t ≡ some u → t ≡ u
some_inj h = cc

has_job-split :
    (i : ℕ) (before : List Job) (j : Job) (after : List Job)
    → has_job i (before ++ j ∷ after) ≡ ((j.index == i) || has_job i (before ++ after))
unfolding has_job
has_job-split i [] j after = refl
has_job-split i (k ∷ ks) j after = ground (arith, has_job-split i ks j after)

All-split :
    (P : Job → Type 0) (before : List Job) (j : Job) (after : List Job)
    → All P (before ++ j ∷ after)
    → P j × All P (before ++ after)
All-split P [] j after h = h
All-split P (k ∷ ks) j after h = let (p, ps) = All-split P ks j after h.1 in (p, (h.0, ps))

has_job-hand :
    (i : ℕ) (j : Job) (js busy : List Job)
    → (has_job i (j ∷ js) || has_job i busy) ≡ true
    → (has_job i js || has_job i (j ∷ busy)) ≡ true
unfolding has_job
has_job-hand i j js busy c = ground (arith, c)

LinkVerdict-url : {raw : Text} {r : LinkStatus} → LinkVerdict raw r → r.url ≡ raw
unfolding check_link link_of
LinkVerdict-url {raw} (checked w c) = elim (Option-cases (validate_url_text w raw)) [
  | inl a ↦ rw (a, check_link) refl
  | inr (e, a) ↦ rw (a, check_link) refl
]
LinkVerdict-url (cancelled e) = refl

module _ (urls : List Text) where
  -- The job of a URL.
  abbrev pub OfUrl : Job → Type 0
  OfUrl j = get_elem? urls j.index ≡ some j.url

  abbrev pub Answered : Pool → ℕ → Text → Type 0
  Answered s i u = (r : LinkStatus) × (get_elem? s.results i ≡ some (some r)) × (r.url ≡ u)

  -- What every step keeps.
  pub record Inv (s : Pool) : Type 0 where
    pub counted : s.idle + length s.busy + s.gone ≡ workers_for urls
    pub open_pending : (s.gone ≡ 0) ⊎ (s.pending ≡ [])
    pub pending_of : All OfUrl s.pending
    pub busy_of : All OfUrl s.busy
    pub sized : length s.results ≡ length urls
    pub covered :
        (i : ℕ) (u : Text)
        → get_elem? urls i ≡ some u
        → ((has_job i s.pending || has_job i s.busy) ≡ true) ⊎ Answered s i u

  -- After the answer to a job, every URL is still waiting, held or answered.
  covered-finish :
      (before : List Job) (j : Job) (after pending : List Job) (r : LinkStatus)
      (results : List (Option LinkStatus))
      → OfUrl j
      → length results ≡ length urls
      → r.url ≡ j.url
      → (i : ℕ) (u : Text) → get_elem? urls i ≡ some u
      → ((has_job i pending || has_job i (before ++ j ∷ after)) ≡ true)
        ⊎ ((q : LinkStatus) × (get_elem? results i ≡ some (some q)) × (q.url ≡ u))
      → ((has_job i pending || has_job i (before ++ after)) ≡ true)
        ⊎ ((q : LinkStatus) × (get_elem? (set_at j.index (some r) results) i ≡ some (some q))
            × (q.url ≡ u))
  covered-finish before j after pending r results own sized ofj i u h c =
      elim (Bool-cases (j.index == i)) [
        | inl e ↦
            let at_i : j.index ≡ i = (==_iff j.index i).0 e in
            inr (
              r,
              rw at_i (get-set_at i (some r) results (rw sized (get_lt urls i u h))),
              ofj ∙ some_inj (sym (rw at_i at own) ∙ h),
            )
        | inr e ↦ elim c [
          | inl k ↦ inl (ground (arith, k, e, has_job-split i before j after))
          | inr (q, k, l) ↦
              inr
                (q, get-set_at_other i j.index (some r) results (λ p. ground (arith, p, e)) ∙ k, l)
        ]
      ]

  pub Step-Inv : {s t : Pool} → Step s t → Inv s → Inv t
  Step-Inv (hand {j} {js} {busy}) inv = record {
    counted = omega (arith, inv.counted);
    open_pending = elim inv.open_pending [ inl g ↦ inl g | inr p ↦ absurd cc ];
    pending_of = inv.pending_of.1;
    busy_of = (inv.pending_of.0, inv.busy_of);
    sized = inv.sized;
    covered = λ i u h. elim (inv.covered i u h) [
      | inl c ↦ inl (has_job-hand i j js busy c)
      | inr a ↦ inr a
    ];
  }
  Step-Inv (finish before j after {pending} {results = results} {r = r} v) inv = record {
    counted =
        omega (arith, inv.counted, length-append before (j ∷ after), length-append before after);
    open_pending = inv.open_pending;
    pending_of = inv.pending_of;
    busy_of = (All-split OfUrl before j after inv.busy_of).1;
    sized = length-set_at j.index (some r) results ∙ inv.sized;
    covered = λ i u h.
        covered-finish before j after pending r results
          (All-split OfUrl before j after inv.busy_of).0 inv.sized (LinkVerdict-url v) i u h
          (inv.covered i u h);
  }
  Step-Inv leave inv = record {
    counted = omega (arith, inv.counted);
    open_pending = inr refl;
    pending_of = tt;
    busy_of = inv.busy_of;
    sized = inv.sized;
    covered = inv.covered;
  }

  pub Reach-Inv : {s t : Pool} → Reach s t → Inv s → Inv t
  Reach-Inv here inv = inv
  Reach-Inv (later r st) inv = Step-Inv st (Reach-Inv r inv)
