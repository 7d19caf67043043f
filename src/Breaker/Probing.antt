-- ===== src/Breaker/Probing.antt =====
-- The half-open state: how many requests it lets through, and how the breaker closes again.
use frappe_operator.Common.{
  ℕ, zero, suc, ◌+◌, ◌-◌, ◌≤◌, ◌<◌, ◌≡◌, false, Option, none, some, arith, ap, refl, leb,
  if◌then◌else◌, ◌∙◌, ◌≢◌, inl, inr, Bool-cases, leb→le, leb-false→lt,
}
use Prim.Native.Nat.{min}
use frappe_operator.Common.Int.{pos, negsuc}
use frappe_operator.Breaker.{
  closed, open_state, half_open, CircuitBreaker, Refusal, before_request, execute,
}

abbrev count_admitted : Option Refusal → ℕ → ℕ
count_admitted none n = suc n
count_admitted (some r) n = n

-- `n` requests enter at time `now` and none of them ends: how many are let through.
unfoldable pub admitted : ℕ → ℕ → CircuitBreaker → ℕ
admitted zero now cb = 0
admitted (suc n) now cb =
    count_admitted (before_request now cb).1 (admitted n now (before_request now cb).0)

half_open_step :
    (k now m : ℕ) (cb : CircuitBreaker)
    → cb.state ≡ half_open
    → cb.half_open_count ≡ pos k
    → cb.config.half_open_max_requests ≡ m
    → k < m
    → ((before_request now cb).1 ≡ none)
      × ((before_request now cb).0.state ≡ half_open)
      × ((before_request now cb).0.half_open_count ≡ pos (suc k))
      × ((before_request now cb).0.config.half_open_max_requests ≡ m)
unfolding before_request
half_open_step k now m cb s c e lt = ground arith

half_open_full :
    (k now m : ℕ) (cb : CircuitBreaker)
    → cb.state ≡ half_open
    → cb.half_open_count ≡ pos k
    → cb.config.half_open_max_requests ≡ m
    → m ≤ k
    → ((before_request now cb).1 ≢ none) × ((before_request now cb).0 ≡ cb)
unfolding before_request
half_open_full k now m cb s c e le = ground arith

count_of_refused : (o : Option Refusal) (n : ℕ) → o ≢ none → count_admitted o n ≡ n
count_of_refused none n h = absurd (h refl)
count_of_refused (some r) n h = refl

admitted-half_open :
    (n k now m : ℕ) (cb : CircuitBreaker)
    → cb.state ≡ half_open
    → cb.half_open_count ≡ pos k
    → cb.config.half_open_max_requests ≡ m
    → admitted n now cb ≡ min n (m - k)
unfolding admitted
admitted-half_open zero k now m cb s c e = omega arith
admitted-half_open (suc n) k now m cb s c e = elim (Bool-cases (leb m k)) [
  | inl full ↦
      let (r, same) = half_open_full k now m cb s c e (ground arith) in
      count_of_refused _ _ r
      ∙ ap (admitted n now) same
      ∙ omega (arith, admitted-half_open n k now m cb s c e, leb→le m k full)
  | inr room ↦
      let (r, s', c', e') = half_open_step k now m cb s c e (ground arith) in
      rw r (
        omega (
          arith,
          admitted-half_open n (suc k) now m (before_request now cb).0 s' c' e',
          leb-false→lt m k room,
        ))
]

open_step :
    (now m : ℕ) (cb : CircuitBreaker)
    → cb.state ≡ open_state
    → cb.last_failure_time + cb.config.timeout ≤ now
    → cb.config.half_open_max_requests ≡ m
    → ((before_request now cb).1 ≡ none)
      × ((before_request now cb).0.state ≡ half_open)
      × ((before_request now cb).0.half_open_count ≡ pos 0)
      × ((before_request now cb).0.config.half_open_max_requests ≡ m)
unfolding before_request
open_step now m cb s t e = ground arith

-- Of `n` requests that enter an open breaker after its timeout, with none ended yet, exactly
-- `halfOpenMaxRequests + 1` are let through (all of them, if there are fewer): the request that
-- turns the breaker half-open is not counted.
pub admitted-open :
    (n now : ℕ) (cb : CircuitBreaker)
    → cb.state ≡ open_state
    → cb.last_failure_time + cb.config.timeout ≤ now
    → admitted n now cb ≡ min n (suc cb.config.half_open_max_requests)
unfolding admitted
admitted-open zero now cb s t = omega arith
admitted-open (suc n) now cb s t =
    let (r, s', c', e') = open_step now cb.config.half_open_max_requests cb s t refl in
    rw r (
      omega (
        arith,
        admitted-half_open n 0 now cb.config.half_open_max_requests (before_request now cb).0 s' c'
            e',
      ))

-- Requests one after the other at time `now`, each of which succeeds.
unfoldable pub successes : ℕ → ℕ → CircuitBreaker → CircuitBreaker
successes zero now cb = cb
successes (suc n) now cb = successes n now (execute now now false cb).0

open_success :
    (now m : ℕ) (cb : CircuitBreaker)
    → cb.state ≡ open_state
    → cb.last_failure_time + cb.config.timeout ≤ now
    → cb.config.half_open_max_requests ≡ m
    → 0 < m
    → ((execute now now false cb).0.state ≡ (if leb m 1 then closed else half_open))
      × ((execute now now false cb).0.success_count ≡ (if leb m 1 then 0 else 1))
      × ((execute now now false cb).0.half_open_count ≡ (if leb m 1 then pos 0 else negsuc 0))
      × ((execute now now false cb).0.config ≡ cb.config)
unfolding execute
open_success now m cb s t e p = ground arith

half_open_success :
    (now m j : ℕ) (cb : CircuitBreaker)
    → cb.state ≡ half_open
    → cb.half_open_count ≡ negsuc 0
    → cb.config.half_open_max_requests ≡ m
    → cb.success_count ≡ j
    → ((execute now now false cb).0.state ≡ (if leb m (suc j) then closed else half_open))
      × ((execute now now false cb).0.success_count ≡ (if leb m (suc j) then 0 else suc j))
      × ((execute now now false cb).0.half_open_count ≡ (if leb m (suc j) then pos 0 else negsuc 0))
      × ((execute now now false cb).0.config ≡ cb.config)
unfolding execute
half_open_success now m j cb s c e p = ground arith

closed_success :
    (now : ℕ) (cb : CircuitBreaker)
    → cb.state ≡ closed
    → (execute now now false cb).0.state ≡ closed
unfolding execute
closed_success now cb s = ground arith

successes-closed :
    (n now : ℕ) (cb : CircuitBreaker) → cb.state ≡ closed → (successes n now cb).state ≡ closed
unfolding successes
successes-closed zero now cb s = s
successes-closed (suc n) now cb s = successes-closed n now _ (closed_success now cb s)

successes-half_open :
    (n now m j : ℕ) (cb : CircuitBreaker)
    → cb.state ≡ half_open
    → cb.half_open_count ≡ negsuc 0
    → cb.config.half_open_max_requests ≡ m
    → cb.success_count ≡ j
    → j < m
    → (successes n now cb).state ≡ (if leb m (n + j) then closed else half_open)
unfolding successes
successes-half_open zero now m j cb s c e p lt = s ∙ ground arith
successes-half_open (suc n) now m j cb s c e p lt =
    let (s', p', c', e') = half_open_success now m j cb s c e p in
    elim (Bool-cases (leb m (suc j))) [
      | inl done ↦ successes-closed n now _ (s' ∙ rw done) ∙ ground arith
      | inr more ↦
          successes-half_open n now m (suc j) _ (s' ∙ rw more) (c' ∙ rw more)
            (ap (λ c. c.half_open_max_requests) e' ∙ e) (p' ∙ rw more) (ground arith)
          ∙ ground arith
    ]

-- After its timeout an open breaker that gets requests one at a time, each successful, is closed
-- from the `halfOpenMaxRequests`-th on, and half-open before that.
pub successes-open :
    (n now : ℕ) (cb : CircuitBreaker)
    → cb.state ≡ open_state
    → cb.last_failure_time + cb.config.timeout ≤ now
    → 0 < cb.config.half_open_max_requests
    → (successes (suc n) now cb).state
      ≡ (if leb cb.config.half_open_max_requests (suc n) then closed else half_open)
unfolding successes
successes-open n now cb s t p =
    let m = cb.config.half_open_max_requests in
    let (s', p', c', e') = open_success now m cb s t refl p in
    elim (Bool-cases (leb m 1)) [
      | inl done ↦ successes-closed n now _ (s' ∙ rw done) ∙ ground arith
      | inr more ↦
          successes-half_open n now m 1 _ (s' ∙ rw more) (c' ∙ rw more)
            (ap (λ c. c.half_open_max_requests) e') (p' ∙ rw more) (ground arith)
          ∙ ground arith
    ]
