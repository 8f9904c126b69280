-- ===== src/Observability/Shared.antt =====
-- Default and SetDefault of internal/observability/metrics.go: any number of calls of Default, step by
-- step and in any order. An instance is told from the others by a number.
pub mod Unique
use source_rudder.Prelude.{ℕ, suc, ◌≡◌, Option, none, some, List, [], ◌∷◌, ◌++◌}

-- A call of Default: before it reads defaultMetrics, when it has read nil, and when it has returned.
pub data Caller : Type 0 where
  asking missing : Caller
  returned : ℕ → Caller

pub record Instances : Type 0 where
  pub default_metrics : Option ℕ
  -- How many instances Default has made by New, which have the numbers below.
  pub made : ℕ
  pub callers : List Caller

abbrev pub no_instance : Instances
no_instance = record { default_metrics = none; made = 0; callers = [] }

-- The section under the read lock.
unfoldable pub read_default : Instances → Instances × Caller
read_default s = elim (s.default_metrics) [ none ↦ (s, missing) | some m ↦ (s, returned m) ]

-- The section under the write lock.
unfoldable pub make_default : Instances → Instances × Caller
make_default s = elim (s.default_metrics) [
  | none ↦ (record s { default_metrics = some s.made; made = suc s.made }, returned s.made)
  | some m ↦ (s, returned m)
]

unfoldable pub set_default : ℕ → Instances → Instances
set_default m s = record s { default_metrics = some m }

-- A step while nobody calls SetDefault.
pub data Step (s : Instances) : Instances → Type 0 where
  call : Step s (record s { callers = asking ∷ s.callers })
  read :
      (before after : List Caller)
      → s.callers ≡ before ++ asking ∷ after
      → Step s (record (read_default s).0 { callers = before ++ (read_default s).1 ∷ after })
  lock :
      (before after : List Caller)
      → s.callers ≡ before ++ missing ∷ after
      → Step s (record (make_default s).0 { callers = before ++ (make_default s).1 ∷ after })

pub data Reach (s : Instances) : Instances → Type 0 where
  here : Reach s s
  later : {t u : Instances} → Reach s t → Step t u → Reach s u
