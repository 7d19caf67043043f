-- ===== src/Breaker/Invariant.antt =====
-- What holds of a breaker under any interleaving of requests by several goroutines.
use frappe_operator.Common.{ℕ, suc, ◌<◌, ◌≡◌, ◌≢◌, Bool, none, arith}
use frappe_operator.Common.Int.{pos, ◌≤ℤ◌}
use frappe_operator.Breaker.{
  closed, half_open, Config, CircuitBreaker, new, before_request, after_request, reset,
}

pub record IsSound (cb : CircuitBreaker) : Type 0 where
  pub max_failures_pos : 0 < cb.config.max_failures
  pub timeout_pos : 0 < cb.config.timeout
  pub half_open_max_pos : 0 < cb.config.half_open_max_requests
  pub closed_below : cb.state ≡ closed → cb.failure_count < cb.config.max_failures
  pub probes_bounded : cb.half_open_count ≤ℤ pos cb.config.half_open_max_requests
  pub unfinished : cb.state ≡ half_open → cb.success_count < cb.config.half_open_max_requests

-- The breaker and the number of requests that were let through and have not ended.
pub record System : Type 0 where
  pub breaker : CircuitBreaker
  pub in_flight : ℕ

-- One critical section: a request enters, is refused or ends, or the breaker is reset.
pub data Step (s : System) : System → Type 0 where
  enter :
      (now : ℕ)
      → (before_request now s.breaker).1 ≡ none
      → Step s (record { breaker = (before_request now s.breaker).0; in_flight = suc s.in_flight })
  refuse :
      (now : ℕ)
      → (before_request now s.breaker).1 ≢ none
      → Step s (record s { breaker = (before_request now s.breaker).0 })
  leave :
      (now : ℕ) (failed : Bool) (n : ℕ)
      → s.in_flight ≡ suc n
      → Step s (record { breaker = after_request now failed s.breaker; in_flight = n })
  restart : Step s (record s { breaker = reset s.breaker })

pub data Reach (s : System) : System → Type 0 where
  here : Reach s s
  next : {t u : System} → Reach s t → Step t u → Reach s u

pub new-IsSound : (c : Config) → IsSound (new c)
unfolding new
new-IsSound c = ground arith

pub before_request-IsSound :
    (now : ℕ) (cb : CircuitBreaker) → IsSound cb → IsSound (before_request now cb).0
unfolding before_request
before_request-IsSound now cb h = ground arith

pub after_request-IsSound :
    (now : ℕ) (failed : Bool) (cb : CircuitBreaker)
    → IsSound cb
    → IsSound (after_request now failed cb)
unfolding after_request
after_request-IsSound now failed cb h = ground arith

pub reset-IsSound : (cb : CircuitBreaker) → IsSound cb → IsSound (reset cb)
unfolding reset
reset-IsSound cb h = ground arith

Step-IsSound : {s t : System} → Step s t → IsSound s.breaker → IsSound t.breaker
Step-IsSound {s} (enter now p) h = before_request-IsSound now s.breaker h
Step-IsSound {s} (refuse now p) h = before_request-IsSound now s.breaker h
Step-IsSound {s} (leave now failed n p) h = after_request-IsSound now failed s.breaker h
Step-IsSound {s} restart h = reset-IsSound s.breaker h

Reach-Step-IsSound : {s t : System} → Reach s t → IsSound s.breaker → IsSound t.breaker
Reach-Step-IsSound here h = h
Reach-Step-IsSound (next r st) h = Step-IsSound st (Reach-Step-IsSound r h)

-- Whatever requests enter, are refused and end, in any interleaving and with any resets, a breaker
-- that starts as `New` makes it has positive settings, has seen fewer than `maxFailures` failures in
-- a row while it is closed, counts at most `halfOpenMaxRequests` probes, and in the half-open state
-- has seen fewer successes than close it.
pub Reach-IsSound :
    (c : Config) (n : ℕ) (t : System)
    → Reach (record { breaker = new c; in_flight = n }) t
    → IsSound t.breaker
Reach-IsSound c n t r = Reach-Step-IsSound r (new-IsSound c)
