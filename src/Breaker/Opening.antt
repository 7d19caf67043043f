-- ===== src/Breaker/Opening.antt =====
-- When the breaker opens, and what an open breaker does.
use frappe_operator.Common.{
  ℕ, zero, suc, ◌+◌, ◌≤◌, ◌<◌, ◌≡◌, Bool, true, false, ◌||◌, List, [], ◌∷◌, ◌++◌, refl, sym, ap,
  ◌∙◌, inl, inr, arith, leb, ◌==◌, if◌then◌else◌, Bool-cases, All, replicate, map, append_assoc,
  ◌↔◌,
}
use frappe_operator.Breaker.{
  closed, open_state, circuit_open, Config, CircuitBreaker, new, refused, execute,
}

-- A request that enters at a time, and whether its call fails.
abbrev pub Request : Type 0
Request = ℕ × Bool

-- Requests one after the other, each over in the instant in which it enters.
unfoldable pub run : List Request → CircuitBreaker → CircuitBreaker
run [] cb = cb
run ((now, failed) ∷ rs) cb = run rs (execute now now failed cb).0

abbrev pub outcomes : List Request → List Bool
outcomes = map (λ r. r.1)

-- All of the requests fall into one timeout from `start` on.
abbrev pub InWindow : ℕ → ℕ → List Request → Type 0
InWindow start timeout = All (λ r. (start ≤ r.0) × (r.0 < start + timeout))

-- Whether `m` failures in a row occur, `j` of which have been seen.
has_run : ℕ → ℕ → List Bool → Bool
has_run m j [] = false
has_run m j (true ∷ os) = suc j == m || has_run m (suc j) os
has_run m j (false ∷ os) = has_run m 0 os

closed_failure :
    (now : ℕ) (cb : CircuitBreaker)
    → cb.state ≡ closed
    → (((execute now now true cb).0.state
        ≡ (if leb cb.config.max_failures (suc cb.failure_count) then open_state else closed)))
      × ((execute now now true cb).0.failure_count ≡ suc cb.failure_count)
      × ((execute now now true cb).0.last_failure_time ≡ now)
      × ((execute now now true cb).0.config ≡ cb.config)
unfolding execute
closed_failure now cb s = ground arith

closed_success :
    (now : ℕ) (cb : CircuitBreaker)
    → cb.state ≡ closed
    → ((execute now now false cb).0.state ≡ closed)
      × ((execute now now false cb).0.failure_count ≡ 0)
      × ((execute now now false cb).0.config ≡ cb.config)
unfolding execute
closed_success now cb s = ground arith

-- Before the timeout is over an open breaker refuses, and stays as it is.
pub execute-open :
    (now end : ℕ) (failed : Bool) (cb : CircuitBreaker)
    → cb.state ≡ open_state
    → now < cb.last_failure_time + cb.config.timeout
    → execute now end failed cb ≡ (cb, refused circuit_open)
unfolding execute
execute-open now end failed cb s h = ground arith

run-open :
    (start t : ℕ) (rs : List Request) (cb : CircuitBreaker)
    → cb.state ≡ open_state
    → start ≤ cb.last_failure_time
    → cb.config.timeout ≡ t
    → InWindow start t rs
    → run rs cb ≡ cb
unfolding run
run-open start t [] cb s l e w = refl
run-open start t ((now, failed) ∷ rs) cb s l e w =
    rw (execute-open now now failed cb s (omega arith)) (run-open start t rs cb s l e w.1)

-- From a closed breaker that has seen `j` failures in a row.
run-state :
    (start t m j : ℕ) (rs : List Request) (cb : CircuitBreaker)
    → cb.state ≡ closed
    → cb.config.timeout ≡ t
    → cb.config.max_failures ≡ m
    → cb.failure_count ≡ j
    → j < m
    → InWindow start t rs
    → (run rs cb).state ≡ (if has_run m j (outcomes rs) then open_state else closed)
unfolding run has_run
run-state start t m j [] cb s et em ej lt w = s
run-state start t m j ((now, false) ∷ rs) cb s et em ej lt w =
    let (s', c', e') = closed_success now cb s in
    run-state start t m 0 rs (execute now now false cb).0 s' (ap (λ c. c.timeout) e' ∙ et)
      (ap (λ c. c.max_failures) e' ∙ em) c' (omega arith) w.1
run-state start t m j ((now, true) ∷ rs) cb s et em ej lt w = elim (Bool-cases (suc j == m)) [
  | inl hit ↦
      let (s', c', l', e') = closed_failure now cb s in
      rw hit (
        ap (λ (b : CircuitBreaker). b.state)
          (run-open start t rs (execute now now true cb).0 (s' ∙ ground arith) (omega arith)
            (ap (λ c. c.timeout) e' ∙ et) w.1)
        ∙ s'
        ∙ ground arith)
  | inr miss ↦
      let (s', c', l', e') = closed_failure now cb s in
      rw miss (
        run-state start t m (suc j) rs (execute now now true cb).0 (s' ∙ ground arith)
          (ap (λ c. c.timeout) e' ∙ et) (ap (λ c. c.max_failures) e' ∙ em) (c' ∙ ap suc ej)
          (ground arith) w.1)
]

replicate-suc :
    (j : ℕ) (os : List Bool) → replicate j true ++ (true ∷ os) ≡ replicate (suc j) true ++ os
replicate-suc zero os = refl
replicate-suc (suc j) os = ap (λ (l : List Bool). true ∷ l) (replicate-suc j os)

-- `m` failures stand next to one another among the outcomes.
abbrev pub HasStreak : ℕ → List Bool → Type 0
HasStreak m os = (xs : List Bool) × (ys : List Bool) × (os ≡ xs ++ (replicate m true ++ ys))

streak_of_run :
    (m j : ℕ) (os : List Bool) → has_run m j os ≡ true → HasStreak m (replicate j true ++ os)
unfolding has_run
streak_of_run m j [] h = cc
streak_of_run m j (false ∷ os) h =
    let (xs, ys, e) = streak_of_run m 0 os h in
    (
      replicate j true ++ (false ∷ xs),
      ys,
      ap (λ (l : List Bool). replicate j true ++ (false ∷ l)) e
          ∙ sym (append_assoc (replicate j true) (false ∷ xs) (replicate m true ++ ys)),
    )
streak_of_run m j (true ∷ os) h = elim (Bool-cases (suc j == m)) [
  | inl hit ↦ (
    [],
    os,
    rw (replicate-suc j os)
        (ap (λ (n : ℕ). replicate n true ++ os) {x = suc j} {y = m} (ground arith)),
  )
  | inr miss ↦ rw (replicate-suc j os) (streak_of_run m (suc j) os (rw miss at h))
]

run_of_replicate :
    (m j r : ℕ) (ys : List Bool) → j < m → m ≤ j + r → has_run m j (replicate r true ++ ys) ≡ true
unfolding has_run
run_of_replicate m j zero ys lt le = absurd (omega arith)
run_of_replicate m j (suc r) ys lt le = elim (Bool-cases (suc j == m)) [
  | inl hit ↦ rw hit
  | inr miss ↦ rw miss (run_of_replicate m (suc j) r ys (ground arith) (omega arith))
]

run_of_streak :
    (m j : ℕ) (xs ys : List Bool) → j < m → has_run m j (xs ++ (replicate m true ++ ys)) ≡ true
unfolding has_run
run_of_streak m j [] ys lt = run_of_replicate m j m ys lt (omega arith)
run_of_streak m j (false ∷ xs) ys lt = run_of_streak m 0 xs ys (omega arith)
run_of_streak m j (true ∷ xs) ys lt = elim (Bool-cases (suc j == m)) [
  | inl hit ↦ rw hit
  | inr miss ↦ rw miss (run_of_streak m (suc j) xs ys (ground arith))
]

new-max_pos : (c : Config) → 0 < (new c).config.max_failures
unfolding new
new-max_pos c = ground arith

new-run :
    (c : Config) (start : ℕ) (rs : List Request)
    → InWindow start (new c).config.timeout rs
    → (run rs (new c)).state
      ≡ (if has_run (new c).config.max_failures 0 (outcomes rs) then open_state else closed)
new-run c start rs w =
    run-state start (new c).config.timeout (new c).config.max_failures 0 rs (new c)
      (unfold new in refl) refl refl (unfold new in refl) (new-max_pos c) w

open_only : (b : Bool) → (if b then open_state else closed) ≡ open_state → b ≡ true
open_only b h = ground arith

-- A new breaker that gets requests one after the other within one timeout is open afterwards
-- exactly when `maxFailures` of them failed in a row, with no success between.
pub run-opens_iff :
    (c : Config) (start : ℕ) (rs : List Request)
    → InWindow start (new c).config.timeout rs
    → ((run rs (new c)).state ≡ open_state) ↔ HasStreak (new c).config.max_failures (outcomes rs)
run-opens_iff c start rs w = (
  (λ h.
      streak_of_run _ 0 (outcomes rs)
        (open_only (has_run _ 0 (outcomes rs)) (sym (new-run c start rs w) ∙ h))),
  λ (xs, ys, e).
      new-run c start rs w
      ∙ ap (λ (b : Bool). if b then open_state else closed)
          (ap (has_run (new c).config.max_failures 0) e ∙ run_of_streak _ 0 xs ys (new-max_pos c)),
)
