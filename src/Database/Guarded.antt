-- ===== src/Database/Guarded.antt =====
-- controllers/database/circuitbreaker_provider.go: the calls of a provider that go through a breaker.
use frappe_operator.Common.{
  ℕ, zero, suc, ◌+◌, ◌≤◌, ◌≡◌, Bool, true, false, Option, none, some, List, [], ◌∷◌, length, refl,
  ap, arith,
}
use frappe_operator.Breaker.{
  closed, Refusal, CircuitBreaker, new, default_config, before_request, after_request,
}
use frappe_operator.Kube.{breaker, Result, ok, err, panic, History, Api, M}

-- After the inner call. One that panics leaves the breaker as the call found it.
abbrev settle :
    {A : Type 0} → ℕ → CircuitBreaker → Result A × History → CircuitBreaker × (Result A × History)
settle end cb (ok a, h) = (after_request end false cb, (ok a, h))
settle end cb (err e, h) = (after_request end true cb, (err e, h))
settle end cb (panic, h) = (cb, (panic, h))

abbrev admit :
    {A : Type 0}
    → ℕ
    → M A
    → Api
    → History
    → CircuitBreaker × Option Refusal
    → CircuitBreaker × (Result A × History)
admit end call api h (cb, some r) = (cb, (err (breaker r), h))
admit end call api h (cb, none) = settle end cb (call api h)

-- Each of the four methods is this, with the inner provider's method as `call`, which is entered at
-- `start` and ends at `end`. Beside an error the wrapped method's value is not used.
unfoldable pub guarded :
    {A : Type 0}
    → ℕ
    → ℕ
    → M A
    → Api
    → CircuitBreaker
    → History
    → CircuitBreaker × (Result A × History)
guarded start end call api cb h = admit end call api h (before_request start cb)

-- A call with the times at which it starts and ends.
pub record Timed (A : Type 0) : Type 0 where
  pub start : ℕ
  pub end : ℕ
  pub call : M A

abbrev pub prepend : {A : Type 0} → A → List A × History → List A × History
prepend r (rs, h) = (r ∷ rs, h)

-- Calls one after the other, through one breaker and without it.
unfoldable pub run_guarded :
    {A : Type 0} → List (Timed A) → Api → CircuitBreaker → History → List (Result A) × History
run_guarded [] api cb h = ([], h)
run_guarded (t ∷ ts) api cb h =
    let (cb', (r, h')) = guarded t.start t.end t.call api cb h in
    prepend r (run_guarded ts api cb' h')

unfoldable pub run_plain : {A : Type 0} → List (Timed A) → Api → History → List (Result A) × History
run_plain [] api h = ([], h)
run_plain (t ∷ ts) api h = let (r, h') = t.call api h in prepend r (run_plain ts api h')

-- A closed breaker that needs `n` more failures to open, if `n` is not zero.
abbrev Slack : ℕ → CircuitBreaker → Type 0
Slack zero cb = Unit
Slack (suc n) cb = (cb.state ≡ closed) × (cb.failure_count + suc n ≤ cb.config.max_failures)

Slack-pred : (n : ℕ) (cb : CircuitBreaker) → Slack (suc n) cb → Slack n cb
Slack-pred zero cb p = tt
Slack-pred (suc n) cb p = (p.0, omega (arith, p.1))

before_request-closed :
    (now : ℕ) (cb : CircuitBreaker) → cb.state ≡ closed → before_request now cb ≡ (cb, none)
unfolding before_request
before_request-closed now cb s = ground arith

after_request-Slack :
    (n now : ℕ) (b : Bool) (cb : CircuitBreaker)
    → Slack (suc n) cb
    → Slack n (after_request now b cb)
unfolding after_request
after_request-Slack zero now b cb p = tt
after_request-Slack (suc n) now true cb (s, le) = ground arith
after_request-Slack (suc n) now false cb (s, le) = ground arith

module _ {A : Type 0} (api : Api) (t : Timed A) (ts : List (Timed A)) where
  -- One call, if the rest agrees.
  run_guarded-settle :
      (cb : CircuitBreaker)
      → Slack (suc (length ts)) cb
      → ((b : CircuitBreaker) (h : History)
          → Slack (length ts) b
          → run_guarded ts api b h ≡ run_plain ts api h)
      → (r : Result A × History)
      → prepend
          (settle t.end cb r).1.0
          (run_guarded ts api (settle t.end cb r).0 (settle t.end cb r).1.1)
        ≡ prepend r.0 (run_plain ts api r.1)
  run_guarded-settle cb p k (ok a, h) =
      ap (prepend (ok a)) (k _ h (after_request-Slack (length ts) t.end false cb p))
  run_guarded-settle cb p k (err e, h) =
      ap (prepend (err e)) (k _ h (after_request-Slack (length ts) t.end true cb p))
  run_guarded-settle cb p k (panic, h) = ap (prepend panic) (k cb h (Slack-pred (length ts) cb p))

run_guarded-Slack :
    {A : Type 0} (api : Api) (ts : List (Timed A)) (cb : CircuitBreaker) (h : History)
    → Slack (length ts) cb
    → run_guarded ts api cb h ≡ run_plain ts api h
unfolding run_guarded run_plain guarded
run_guarded-Slack api [] cb h p = refl
run_guarded-Slack api (t ∷ ts) cb h p =
    rw (before_request-closed t.start cb p.0)
      (run_guarded-settle api t ts cb p (run_guarded-Slack api ts) (t.call api h))

-- Up to five calls through a breaker as `NewProvider` makes it have the same results and the same
-- writes as without a breaker, whatever the calls do: such a breaker never refuses one.
pub run_guarded-eq-run_plain :
    {A : Type 0} (ts : List (Timed A)) (api : Api) (h : History)
    → length ts ≤ 5
    → run_guarded ts api (new default_config) h ≡ run_plain ts api h
unfolding new default_config
run_guarded-eq-run_plain ts api h le =
    run_guarded-Slack api ts (new default_config) h (start (length ts) le)
  where
    start : (n : ℕ) → n ≤ 5 → Slack n (new default_config)
    start zero p = tt
    start (suc n) p = (refl, omega (arith, p))
