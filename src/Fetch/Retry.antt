-- ===== src/Fetch/Retry.antt =====
-- shouldRetry, isTimeoutErr, backoffDelay and outcomeFromErr of internal/fetch/fetcher.go. A
-- duration is an int64 of nanoseconds, whose wrap-around is written out.
pub mod Backoff
use source_rudder.Prelude.{
  ℕ, zero, ◌+◌, ◌-◌, ◌*◌, ◌/◌, ◌%◌, ◌^◌, Bool, true, ◌&&◌, ◌||◌, Option, none, some, ltb, leb, ◌==◌,
  if◌then◌else◌, ℤ, pos, negsuc, ◌+ℤ◌, ◌-ℤ◌, ◌*ℤ◌, ltb_ℤ,
}
use source_rudder.Types.{Failure, Outcome, success, timeout, non_transient_failure}

-- The int64 that a bit pattern stands for, and the wrap-around of a result.
abbrev from_bits : ℕ → ℤ
from_bits n = if ltb n (2 ^ 63) then pos n else negsuc (2 ^ 64 - n - 1)

unfoldable pub wrap64 : ℤ → ℤ
wrap64 (pos n) = from_bits (n % 2 ^ 64)
wrap64 (negsuc n) = from_bits (2 ^ 64 - 1 - n % 2 ^ 64)

unfoldable pub is_timeout_err : Failure → Bool
is_timeout_err e = e.net_timeout || e.deadline

-- Every caller passes an error: the loop has returned when there is none.
unfoldable pub should_retry : ℕ → Failure → Bool
unfolding is_timeout_err
should_retry status e =
    if is_timeout_err e
    then true
    else if status == 429
    then true
    else leb 502 status && leb status 504

unfoldable pub outcome_from_err : Option Failure → Outcome
unfolding is_timeout_err
outcome_from_err none = success
outcome_from_err (some e) = if is_timeout_err e then timeout else non_transient_failure

-- base / 2, rounded toward zero.
abbrev half : ℤ → ℤ
half (pos n) = pos (n / 2)
half (negsuc n) = if n == 0 then pos 0 else negsuc ((n + 1) / 2 - 1)

-- time.Duration(1 << (attempt - 1)) * base
abbrev doubled : ℤ → ℕ → ℤ
doubled base attempt = wrap64 (wrap64 (pos (2 ^ (attempt - 1))) *ℤ base)

unfoldable pub backoff_delay : ℤ → ℕ → ℤ
backoff_delay base attempt =
    let d = doubled base attempt in
    let jittered = wrap64 (if attempt % 2 == 0 then d +ℤ half base else d -ℤ half base) in
    if ltb_ℤ jittered base then base else jittered
