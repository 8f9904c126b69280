-- ===== src/Fetch/Retry/Backoff.antt =====
-- The delays between attempts.
use source_rudder.Prelude.{
  ℕ, zero, suc, ◌+◌, ◌-◌, ◌*◌, ◌/◌, ◌%◌, ◌^◌, ◌≤◌, ◌<◌, ◌≡◌, inl, inr, arith, ltb, ◌==◌,
  if◌then◌else◌, Bool-cases, ℤ, pos, ◌+ℤ◌, ◌-ℤ◌, ◌*ℤ◌, ◌≤ℤ◌,
}
use source_rudder.Fetch.Retry.{wrap64, backoff_delay}

-- The delay before an attempt is never shorter than the base, for any attempt, not even where the
-- shift or the product leaves the range of an int64.
pub backoff_delay-ge_base : (base : ℤ) (attempt : ℕ) → base ≤ℤ backoff_delay base attempt
unfolding backoff_delay
backoff_delay-ge_base base attempt = ground arith

wrap64_in_range : (n : ℕ) → n < 2 ^ 63 → wrap64 (pos n) ≡ pos n
unfolding wrap64
wrap64_in_range n h = ground arith

mul_ge : (k n : ℕ) → 1 ≤ n → k ≤ k * n
mul_ge k n h = grind arith

mul_le : (k n : ℕ) → 1 ≤ k → n ≤ k * n
mul_le k n h = grind arith

pow_ge : (m : ℕ) → 1 ≤ 2 ^ m
pow_ge zero = omega arith
pow_ge (suc m) = omega (arith, pow_ge m)

pos_mul : (a b : ℕ) → pos a *ℤ pos b ≡ pos (a * b)
unfolding ◌*ℤ◌
pos_mul a b = ground arith

pos_add : (a b : ℕ) → pos a +ℤ pos b ≡ pos (a + b)
unfolding ◌+ℤ◌
pos_add a b = ground arith

pos_sub : (a b : ℕ) → b ≤ a → pos a -ℤ pos b ≡ pos (a - b)
unfolding ◌-ℤ◌
pos_sub a b h = ground arith

product_in_range :
    (k n : ℕ) → 1 ≤ n → k * n < 2 ^ 63 → wrap64 (wrap64 (pos k) *ℤ pos n) ≡ pos (k * n)
product_in_range k n h l =
    rw (wrap64_in_range k (omega (arith, mul_ge k n h, l)))
      (rw (pos_mul k n) (wrap64_in_range (k * n) l))

-- What the delay is as long as nothing overflows.
abbrev pub exact_delay : ℕ → ℕ → ℕ
exact_delay n attempt =
    let d = 2 ^ (attempt - 1) * n in
    if attempt % 2 == 0 then d + n / 2 else if ltb (d - n / 2) n then n else d - n / 2

-- For a positive base, as long as 2 ^ (attempt - 1) + 1 bases fit an int64, the delay before an
-- attempt is 2 ^ (attempt - 1) bases, with half a base added for an even attempt and taken off for
-- an odd one, and is the base where that is shorter.
pub backoff_delay-exact :
    (n attempt : ℕ)
    → 1 ≤ n
    → 2 ^ (attempt - 1) * n + n < 2 ^ 63
    → backoff_delay (pos n) attempt ≡ pos (exact_delay n attempt)
unfolding backoff_delay
backoff_delay-exact n attempt h l =
    let k = 2 ^ (attempt - 1) in
    let p = product_in_range k n h (omega (arith, l)) in
    let big : n / 2 ≤ k * n = omega (arith, mul_le k n (pow_ge (attempt - 1))) in
    elim (Bool-cases (attempt % 2 == 0)) [
      | inl e ↦
          rw (e, p)
            (rw (pos_add (k * n) (n / 2)) (
              rw (wrap64_in_range (k * n + n / 2) (omega (arith, l)))
                (ground (arith, mul_le k n (pow_ge (attempt - 1))))))
      | inr e ↦
          rw (e, p)
            (rw (pos_sub (k * n) (n / 2) big)
              (rw (wrap64_in_range (k * n - n / 2) (omega (arith, l))) (ground arith)))
    ]
