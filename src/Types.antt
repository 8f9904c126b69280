-- ===== src/Types.antt =====
-- pkg/types/types.go: the requests and responses that the components exchange. A []T that the code
-- tests against nil is a `Slice`; *time.Time is an `Option`; a score is a whole number wherever the
-- code sets one, and is kept as an integer; a confidence is kept in hundredths.
use source_rudder.Prelude.{
  ℕ, ◌≡◌, refl, ◌⊎◌, inl, inr, Bool, false, Option, none, List, [], ◌++◌, Slice, ℤ, Text,
}

pub record SearchRequest : Type 0 where
  pub query : Text
  pub sources : List Text
  pub max_results : ℤ
  pub language : Text
  pub safe_search : Bool
  pub time_range : Text
  pub format : Text
  pub cache_policy : Text
  pub deep_research : Bool
  pub filters : List (Text × Text)

pub record SearchResultItem : Type 0 where
  pub title : Text
  pub url : Text
  pub snippet : Text
  pub source : Text
  pub engine : Text
  pub type : Text
  pub score : ℤ
  pub published_at : Option ℤ
  pub author : Text
  pub tags : List Text
  pub citation_id : Text
  pub canonical_url : Text

pub record SearchResponse : Type 0 where
  pub query : Text
  pub results : Slice SearchResultItem
  pub summary : Text
  pub key_findings : Slice Text
  pub sources_used : Slice Text
  pub strategy : Text
  pub confidence : ℕ
  pub cached : Bool
  pub partial : Bool
  pub warnings : Slice Text
  pub errors : Slice Text

-- The zero value of a response, which the composite literals of the code fill in.
abbrev pub no_response : SearchResponse
no_response = record {
  query = [];
  results = none;
  summary = [];
  key_findings = none;
  sources_used = none;
  strategy = [];
  confidence = 0;
  cached = false;
  partial = false;
  warnings = none;
  errors = none;
}

-- The values of FetchResponse.Outcome; `unset` is the empty string.
pub data Outcome : Type 0 where
  unset success blocked_target blocked_redirect too_many_redirects timeout : Outcome
  transport_error http_error non_transient_failure transient_failure_retried_exhausted : Outcome

pub record FetchResponse : Type 0 where
  pub url : Text
  pub title : Text
  pub content : Text
  pub metadata : List (Text × Text)
  pub warnings : List Text
  pub outcome : Outcome
  pub status : ℕ
  pub redirect_chain : List Text
  pub attempts : ℕ

pub record CacheEntry : Type 0 where
  pub cache_key : Text
  pub created_at : ℤ
  pub expires_at : ℤ
  pub payload : Text
  pub source_set : Slice Text

-- A Go error: its text, and what errors.As and errors.Is find in its chain. `net_timeout` is a
-- net.Error whose Timeout() is true, `deadline` is context.DeadlineExceeded, `canceled` is
-- context.Canceled.
pub record Failure : Type 0 where
  pub message : Text
  pub net_timeout : Bool
  pub deadline : Bool
  pub canceled : Bool

-- errors.New, and fmt.Errorf without %w.
abbrev pub plain_error : Text → Failure
plain_error m = record { message = m; net_timeout = false; deadline = false; canceled = false }

-- fmt.Errorf("…: %w", err): the chain is that of `err`.
abbrev pub wrap_error : Text → Failure → Failure
wrap_error prefix e = record e { message = prefix ++ e.message }

pub data Result {ℓ} (A : Type ℓ) : Type ℓ where
  ok : A → Result A
  err : Failure → Result A

pub Result-cases {ℓ} :
    {A : Type ℓ} (r : Result A) → ((e : Failure) × (r ≡ err e)) ⊎ ((a : A) × (r ≡ ok a))
Result-cases (ok a) = inr (a, refl)
Result-cases (err e) = inl (e, refl)

-- What holds of the value of a result, if there is one.
abbrev pub Holds {ℓ κ} : {A : Type ℓ} → (A → Type κ) → Result A → Type κ
Holds P (ok a) = P a
Holds P (err e) = Unit

pub Holds-value {ℓ κ} :
    {A : Type ℓ} (P : A → Type κ) (r : Result A) (a : A) → r ≡ ok a → Holds P r → P a
Holds-value P r a h p = rw h at p
