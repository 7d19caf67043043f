-- ===== src/Backoff/Examples.antt =====
-- Tests of the delays, and their theorems at concrete inputs.
use frappe_operator.Common.{◌+◌, ◌*◌, ◌-◌, ◌^◌, ◌≡◌, refl, arith}
use frappe_operator.Common.Int.{pos, negsuc, pos_part}
use Prim.Native.Nat.{min}
use frappe_operator.Backoff.{amd64, float64, to_duration, exponential_backoff}
use frappe_operator.Backoff.Bounds.{exponential_backoff-min, requeue-overflows}

third_attempt_test : exponential_backoff amd64 10000000000 (pos 3) 300000000000 ≡ pos 80000000000
unfolding exponential_backoff to_duration float64
third_attempt_test = refl

capped_test : exponential_backoff amd64 10000000000 (pos 9) 300000000000 ≡ pos 300000000000
unfolding exponential_backoff to_duration float64
capped_test = refl

-- Two integers of 54 bits, half way between two floats, and the greatest `int64`.
rounded_test :
    (float64 (2 ^ 53 + 1) ≡ 2 ^ 53)
    × (float64 (2 ^ 53 + 3) ≡ 2 ^ 53 + 4)
    × (float64 (2 ^ 63 - 1) ≡ 2 ^ 63)
unfolding float64
rounded_test = (refl, refl, refl)

exponential_backoff-min_example :
    exponential_backoff amd64 10000000000 (negsuc 4) 300000000000
    ≡ pos (min (10000000000 * 2 ^ pos_part (negsuc 4)) 300000000000)
exponential_backoff-min_example =
    exponential_backoff-min amd64 10000000000 (negsuc 4) 300000000000 (omega arith) (omega arith)
      (omega arith)

requeue-overflows_example :
    exponential_backoff amd64 10000000000 (pos 30) 300000000000 ≡ negsuc (2 ^ 63 - 1)
requeue-overflows_example = requeue-overflows 30 (omega arith)
