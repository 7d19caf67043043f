-- ===== src/Breaker/Examples.antt =====
-- Tests of the circuit breaker, and its theorems at concrete inputs.
use frappe_operator.Common.{
  suc, ◌+◌, ◌<◌, ◌≤◌, ◌≡◌, ◌↔◌, true, false, some, List, [], ◌∷◌, refl, arith,
}
use Prim.Native.Nat.{min}
use frappe_operator.Breaker.{
  closed, open_state, circuit_open, CircuitBreaker, new, default_config, before_request,
  after_request, execute, reset,
}
use frappe_operator.Breaker.Invariant.{
  IsSound, System, enter, leave, restart, Reach, here, next, Reach-IsSound,
}
use frappe_operator.Breaker.Opening.{Request, run, outcomes, HasStreak, InWindow, run-opens_iff}
use frappe_operator.Breaker.Probing.{admitted, admitted-open}

abbrev five_failures : List Request
five_failures = (1, true) ∷ (2, true) ∷ (3, true) ∷ (4, true) ∷ (5, true) ∷ []

abbrev interrupted : List Request
interrupted = (1, true) ∷ (2, true) ∷ (3, false) ∷ (4, true) ∷ (5, true) ∷ (6, true) ∷ []

abbrev opened : CircuitBreaker
opened = record (new default_config) {
  state = open_state;
  failure_count = 5;
  last_failure_time = 5;
}

run_test : (run five_failures (new default_config)).state ≡ open_state
unfolding run execute new default_config
run_test = refl

run_interrupted_test : (run interrupted (new default_config)).state ≡ closed
unfolding run execute new default_config
run_interrupted_test = refl

refused_test : (before_request 6 opened).1 ≡ some circuit_open
unfolding before_request new default_config
refused_test = refl

notified_test :
    (reset (record opened { config = record opened.config { has_callback = true } })).calls
    ≡ (open_state, closed) ∷ []
unfolding reset new default_config
notified_test = refl

abbrev started : System
started = record { breaker = new default_config; in_flight = 0 }

abbrev entered : System
entered = record { breaker = (before_request 1 (new default_config)).0; in_flight = 1 }

abbrev left : System
left = record {
  breaker = after_request 2 true (before_request 1 (new default_config)).0;
  in_flight = 0;
}

entered-Reach : Reach started entered
unfolding before_request new default_config
entered-Reach = next here (enter 1 refl)

left-Reach : Reach started left
left-Reach = next entered-Reach (leave 2 true 0 refl)

Reach-IsSound_example :
    IsSound (reset (after_request 2 true (before_request 1 (new default_config)).0))
Reach-IsSound_example =
    Reach-IsSound default_config 0
      (record {
        breaker = reset (after_request 2 true (before_request 1 (new default_config)).0);
        in_flight = 0;
      })
      (next left-Reach restart)

five_failures-InWindow : InWindow 1 (new default_config).config.timeout five_failures
unfolding new default_config
five_failures-InWindow = ground arith

run-opens_iff_example :
    ((run five_failures (new default_config)).state ≡ open_state)
    ↔ HasStreak (new default_config).config.max_failures (outcomes five_failures)
run-opens_iff_example = run-opens_iff default_config 1 five_failures five_failures-InWindow

due : opened.last_failure_time + opened.config.timeout ≤ 40000000000
unfolding new default_config
due = omega arith

probes : 0 < opened.config.half_open_max_requests
unfolding new default_config
probes = omega arith

admitted-open_example :
    admitted 3 40000000000 opened ≡ min 3 (suc opened.config.half_open_max_requests)
admitted-open_example = admitted-open 3 40000000000 opened refl due
