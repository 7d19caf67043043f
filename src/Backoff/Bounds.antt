-- ===== src/Backoff/Bounds.antt =====
-- What the delay is while the float fits an `int64`, and what it is on amd64 beyond.
use frappe_operator.Common.{ℕ, zero, suc, ◌*◌, ◌^◌, ◌-◌, ◌≤◌, ◌<◌, ◌≡◌, arith, ap}
use Prim.Native.Nat.{min}
use native.Mathlib.Nat.{pow-suc}
use native.Mathlib.Decide.{dec_le}
use frappe_operator.Common.Int.{ℤ, pos, negsuc, pos_part}
use frappe_operator.Backoff.{Conversion, amd64, float64, to_duration, exponential_backoff}

-- An integer of at most 53 bits is a float.
float64-exact : (n : ℕ) → n < 2 ^ 53 → float64 n ≡ n
unfolding float64
float64-exact n h = ground arith

to_duration-small :
    (c : Conversion) (base a : ℕ)
    → base < 2 ^ 53
    → a < 1024
    → base * 2 ^ a < 2 ^ 63
    → to_duration c base a ≡ pos (base * 2 ^ a)
unfolding to_duration
to_duration-small c base a b l h = rw (float64-exact base b) (ground arith)

to_duration-large :
    (c : Conversion) (base a : ℕ)
    → base < 2 ^ 53
    → 2 ^ 63 ≤ base * 2 ^ a
    → to_duration c base a ≡ c base a
unfolding to_duration
to_duration-large c base a b h = rw (float64-exact base b) (ground arith)

-- For a base below 2 ^ 53 and an attempt below 1024, while `base * 2 ^ attempt` is below 2 ^ 63, the
-- delay is the smaller of it and `max`; a negative attempt counts as 0.
pub exponential_backoff-min :
    (c : Conversion) (base : ℕ) (attempt : ℤ) (max : ℕ)
    → base < 2 ^ 53
    → pos_part attempt < 1024
    → base * 2 ^ pos_part attempt < 2 ^ 63
    → exponential_backoff c base attempt max ≡ pos (min (base * 2 ^ pos_part attempt) max)
unfolding exponential_backoff
exponential_backoff-min c base attempt max b l h =
    rw (to_duration-small c base (pos_part attempt) b l h) (ground arith)

le_lt : {a b c : ℕ} → a ≤ b → b < c → a < c
le_lt p q = omega arith

two_pow-pos : (a : ℕ) → 0 < 2 ^ a
two_pow-pos zero = omega arith
two_pow-pos (suc a) = rw pow-suc (omega (arith, two_pow-pos a))

two_pow_mono : (b a : ℕ) → a ≤ b → 2 ^ a ≤ 2 ^ b
two_pow_mono zero a h = omega (arith, ap (λ (n : ℕ). 2 ^ n) {x = a} {y = 0} (omega arith))
two_pow_mono (suc b) a h = elim (dec_le a b) [
  | yes p ↦ rw pow-suc (omega (arith, two_pow_mono b a p))
  | no p ↦ omega (arith, ap (λ (n : ℕ). 2 ^ n) {x = a} {y = suc b} (omega arith))
]

-- On amd64, once `base * 2 ^ attempt` reaches 2 ^ 63, the delay is the least `int64`.
exponential_backoff-overflow :
    (base a max : ℕ)
    → base < 2 ^ 53
    → 2 ^ 63 ≤ base * 2 ^ a
    → exponential_backoff amd64 base (pos a) max ≡ negsuc (2 ^ 63 - 1)
unfolding exponential_backoff
exponential_backoff-overflow base a max b h = rw (to_duration-large amd64 base a b h) (ground arith)

-- From attempt 30 on, a base of 10 seconds and a cap of 5 minutes give the least `int64` on amd64,
-- which is a negative delay.
pub requeue-overflows :
    (a : ℕ)
    → 30 ≤ a
    → exponential_backoff amd64 10000000000 (pos a) 300000000000 ≡ negsuc (2 ^ 63 - 1)
requeue-overflows a h =
    exponential_backoff-overflow 10000000000 a 300000000000 (omega arith)
      (omega (arith, two_pow_mono a 30 h))
