-- ===== src/Backoff.antt =====
-- pkg/backoff/backoff.go. Durations are nanoseconds.
pub mod Bounds
mod Examples
use frappe_operator.Common.{
  zero, suc, ◌+◌, ◌/◌, ◌%◌, ◌==◌, ◌&&◌, ℕ, ◌*◌, ◌^◌, ◌-◌, Bool, true, ltb, if◌then◌else◌,
}
use frappe_operator.Common.Int.{ℤ, pos, negsuc, pos_part, lebℤ}

-- What the Go specification leaves to the implementation: `time.Duration(f)` of the float that
-- `ExponentialBackoff` computes for a base and an attempt, where that is at least 2 ^ 63, infinite or,
-- as zero times infinity, no number.
abbrev pub Conversion : Type 0
Conversion = ℕ → ℕ → ℤ

-- The conversion of amd64 gives the least `int64` there.
abbrev pub amd64 : Conversion
amd64 base attempt = negsuc (2 ^ 63 - 1)

-- The multiple of 2 ^ e that is nearest to `n`, and the even one of two.
round_to : ℕ → ℕ → ℕ
round_to e n =
    let q = n / 2 ^ e in
    let r = n % 2 ^ e in
    if ltb (2 * r) (2 ^ e)
    then q * 2 ^ e
    else if ltb (2 ^ e) (2 * r)
    then (q + 1) * 2 ^ e
    else if q % 2 == 0
    then q * 2 ^ e
    else (q + 1) * 2 ^ e

-- The exponent at which `n` has 53 bits at most. Eleven steps are enough below 2 ^ 64.
exponent_from : ℕ → ℕ → ℕ → ℕ
exponent_from zero e n = e
exponent_from (suc fuel) e n =
    let more = exponent_from fuel (suc e) n in if ltb n (2 ^ 53 * 2 ^ e) then e else more

-- `float64(n)` for an `int64` that is not negative.
unfoldable pub float64 : ℕ → ℕ
unfolding round_to exponent_from
float64 n = round_to (exponent_from 11 0 n) n

-- `math.Pow(2, attempt)` is infinite from 1024 on, and exact before, as is the product with it.
unfoldable pub to_duration : Conversion → ℕ → ℕ → ℤ
unfolding float64
to_duration convert base attempt =
    let product = float64 base * 2 ^ attempt in
    if ltb attempt 1024 && ltb product (2 ^ 63) then pos product else convert base attempt

unfoldable pub exponential_backoff : Conversion → ℕ → ℤ → ℕ → ℤ
exponential_backoff convert base attempt max =
    let result = to_duration convert base (pos_part attempt) in
    if lebℤ result (pos max) then result else pos max

unfoldable pub calculate_requeue_interval : Conversion → ℕ → ℤ → ℕ → ℤ × Bool
unfolding exponential_backoff
calculate_requeue_interval convert base attempt max =
    (exponential_backoff convert base attempt max, true)
