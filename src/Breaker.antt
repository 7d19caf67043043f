-- ===== src/Breaker.antt =====
-- The circuit breaker of pkg/circuitbreaker/circuitbreaker.go. A method that mutates
-- `*CircuitBreaker` under its lock returns the new record. The time that it reads is an argument.
pub mod Invariant
pub mod Opening
pub mod Probing
mod Examples
use frappe_operator.Common.{
  ℕ, zero, suc, ◌+◌, Bool, true, false, Option, none, some, List, [], ◌∷◌, leb, if◌then◌else◌,
}
use frappe_operator.Common.Int.{ℤ, pos, negsuc, lebℤ, inc, dec}

pub data State : Type 0 where
  closed open_state half_open : State

pub data Refusal : Type 0 where
  circuit_open too_many_requests : Refusal

-- The configuration that `New` is given; durations are in nanoseconds.
pub record Config : Type 0 where
  pub max_failures : ℤ
  pub timeout : ℤ
  pub half_open_max_requests : ℤ
  pub has_callback : Bool

-- The configuration that `New` keeps, with each number positive.
pub record Settings : Type 0 where
  pub max_failures : ℕ
  pub timeout : ℕ
  pub half_open_max_requests : ℕ
  pub has_callback : Bool

-- `calls` holds the pairs that `OnStateChange` was called with, the latest first.
pub record CircuitBreaker : Type 0 where
  pub config : Settings
  pub state : State
  pub failure_count : ℕ
  pub success_count : ℕ
  pub last_failure_time : ℕ
  pub half_open_count : ℤ
  pub calls : List (State × State)

-- `if v <= 0 { v = d }`
abbrev pub positive_or : ℤ → ℕ → ℕ
positive_or (pos zero) d = d
positive_or (pos (suc n)) d = suc n
positive_or (negsuc n) d = d

unfoldable pub default_config : Config
default_config = record {
  max_failures = pos 5;
  timeout = pos 30000000000;
  half_open_max_requests = pos 1;
  has_callback = false;
}

unfoldable pub new : Config → CircuitBreaker
new c = record {
  config = record {
    max_failures = positive_or c.max_failures 5;
    timeout = positive_or c.timeout 30000000000;
    half_open_max_requests = positive_or c.half_open_max_requests 1;
    has_callback = c.has_callback;
  };
  state = closed;
  failure_count = 0;
  success_count = 0;
  last_failure_time = 0;
  half_open_count = pos 0;
  calls = [];
}

-- `if OnStateChange != nil { OnStateChange(name, from, to) }`
abbrev notified : CircuitBreaker → State → List (State × State)
notified cb to = if cb.config.has_callback then (cb.state, to) ∷ cb.calls else cb.calls

transition_to_open : CircuitBreaker → CircuitBreaker
transition_to_open cb = record cb {
  state = open_state;
  half_open_count = pos 0;
  calls = notified cb open_state;
}

transition_to_half_open : CircuitBreaker → CircuitBreaker
transition_to_half_open cb = record cb {
  state = half_open;
  success_count = 0;
  half_open_count = pos 0;
  calls = notified cb half_open;
}

transition_to_closed : CircuitBreaker → CircuitBreaker
transition_to_closed cb = record cb {
  state = closed;
  failure_count = 0;
  success_count = 0;
  half_open_count = pos 0;
  calls = notified cb closed;
}

before_in : State → ℕ → CircuitBreaker → CircuitBreaker × Option Refusal
unfolding transition_to_half_open
before_in closed now cb = (cb, none)
before_in open_state now cb =
    if leb (cb.last_failure_time + cb.config.timeout) now
    then (transition_to_half_open cb, none)
    else (cb, some circuit_open)
before_in half_open now cb =
    if lebℤ (pos cb.config.half_open_max_requests) cb.half_open_count
    then (cb, some too_many_requests)
    else (record cb { half_open_count = inc cb.half_open_count }, none)

-- The clock is monotonic, so `now - lastFailureTime >= timeout` is written as a sum.
unfoldable pub before_request : ℕ → CircuitBreaker → CircuitBreaker × Option Refusal
unfolding before_in
before_request now cb = before_in cb.state now cb

failure_in : State → CircuitBreaker → CircuitBreaker
unfolding transition_to_open
failure_in closed cb =
    if leb cb.config.max_failures cb.failure_count then transition_to_open cb else cb
failure_in open_state cb = cb
failure_in half_open cb = transition_to_open cb

record_failure : ℕ → CircuitBreaker → CircuitBreaker
unfolding failure_in
record_failure now cb =
    failure_in cb.state (record cb {
      failure_count = suc cb.failure_count;
      success_count = 0;
      last_failure_time = now;
    })

success_in : State → CircuitBreaker → CircuitBreaker
unfolding transition_to_closed
success_in closed cb = record cb { failure_count = 0 }
success_in open_state cb = cb
success_in half_open cb =
    let counted = record cb {
      success_count = suc cb.success_count;
      half_open_count = dec cb.half_open_count;
    } in
    if leb counted.config.half_open_max_requests counted.success_count
    then transition_to_closed counted
    else counted

record_success : CircuitBreaker → CircuitBreaker
unfolding success_in
record_success cb = success_in cb.state cb

-- The flag says whether the wrapped call returned an error.
unfoldable pub after_request : ℕ → Bool → CircuitBreaker → CircuitBreaker
unfolding record_failure record_success
after_request now true cb = record_failure now cb
after_request now false cb = record_success cb

abbrev is_closed : State → Bool
is_closed closed = true
is_closed _ = false

unfoldable pub reset : CircuitBreaker → CircuitBreaker
reset cb = record cb {
  state = closed;
  failure_count = 0;
  success_count = 0;
  half_open_count = pos 0;
  calls = if is_closed cb.state then cb.calls else notified cb closed;
}

pub data Outcome : Type 0 where
  refused : Refusal → Outcome
  returned : Bool → Outcome

abbrev finish : ℕ → Bool → CircuitBreaker × Option Refusal → CircuitBreaker × Outcome
finish end failed (cb, some r) = (cb, refused r)
finish end failed (cb, none) = (after_request end failed cb, returned failed)

-- `Execute` with no other request between its two halves: it is entered at `start`, and the
-- wrapped call ends at `end` with or without an error.
unfoldable pub execute : ℕ → ℕ → Bool → CircuitBreaker → CircuitBreaker × Outcome
unfolding before_request after_request
execute start end failed cb = finish end failed (before_request start cb)
