-- ===== src/Workers/Scaling.antt =====
-- Which workers can be scaled by KEDA.
use std.Logic.{↔_trans}
use mathlib.Core.Bool.{false≢true}
use frappe_operator.Common.{
  ap, Bool, false, deref_or, arith, ◌≡◌, ◌↔◌, refl, true, Option, none, some, or_else, is_some,
}
use frappe_operator.Types.{ComponentReplicas, WorkerAutoscaling, BenchSpec}
use frappe_operator.Workers.{
  is_enabled, WorkerType, short_worker, long_worker, default_worker, configured_for, legacy_of,
  get_worker_autoscaling_config, get_default_autoscaling_config, fill_with,
  fill_autoscaling_defaults, worker_config, scaled_spec,
}

-- All that a ScaledObject is made of is there.
abbrev pub IsComplete : WorkerAutoscaling → Type 0
IsComplete c =
    (is_some c.min_replicas ≡ true)
    × (is_some c.max_replicas ≡ true)
    × (is_some c.cooldown_period ≡ true)
    × (is_some c.polling_interval ≡ true)
    × (is_some c.queue_length ≡ true)

-- A ScaledObject is built without a nil dereference exactly if all five fields are set.
scaled_spec_iff : (x : WorkerAutoscaling) → (is_some (scaled_spec x) ≡ true) ↔ IsComplete x
unfolding scaled_spec
scaled_spec_iff x = (ground arith, ground arith)

is_some-or_else : {A : Type 0} (o : Option A) (a : A) → is_some (or_else o (some a)) ≡ true
is_some-or_else none a = refl
is_some-or_else (some b) a = refl

is_some-or_none : {A : Type 0} (o : Option A) → or_else o none ≡ o
is_some-or_none none = refl
is_some-or_none (some b) = refl

-- A worker whose defaults can be scaled.
abbrev pub IsScalable : WorkerType → Type 0
IsScalable short_worker = Unit
IsScalable long_worker = Unit
IsScalable default_worker = ⊥

fill_autoscaling_defaults-IsComplete :
    (t : WorkerType) (c : Option WorkerAutoscaling)
    → IsScalable t
    → IsComplete (fill_autoscaling_defaults c t)
unfolding fill_autoscaling_defaults fill_with get_default_autoscaling_config
fill_autoscaling_defaults-IsComplete short_worker none p = (refl, refl, refl, refl, refl)
fill_autoscaling_defaults-IsComplete short_worker (some c) p = (
  is_some-or_else _ _,
  is_some-or_else _ _,
  is_some-or_else _ _,
  is_some-or_else _ _,
  is_some-or_else _ _,
)
fill_autoscaling_defaults-IsComplete long_worker none p = (refl, refl, refl, refl, refl)
fill_autoscaling_defaults-IsComplete long_worker (some c) p = (
  is_some-or_else _ _,
  is_some-or_else _ _,
  is_some-or_else _ _,
  is_some-or_else _ _,
  is_some-or_else _ _,
)
fill_autoscaling_defaults-IsComplete default_worker c p = absurd p

-- The configuration of the default worker, complete.
abbrev pub CompleteIn : Option WorkerAutoscaling → Type 0
CompleteIn none = ⊥
CompleteIn (some c) = IsComplete c

default_filled :
    (c : Option WorkerAutoscaling)
    → IsComplete (fill_autoscaling_defaults c default_worker) ↔ CompleteIn c
unfolding fill_autoscaling_defaults fill_with get_default_autoscaling_config
default_filled none = (ground arith, ground arith)
default_filled (some c) = simp (is_some-or_none) ((λ h. h), (λ h. h))

default_chosen :
    (o : Option WorkerAutoscaling) (r : Option ComponentReplicas)
    → CompleteIn (or_else o (legacy_of default_worker r)) ↔ CompleteIn o
unfolding legacy_of
default_chosen (some c) r = ((λ h. h), (λ h. h))
default_chosen none none = ((λ h. h), (λ h. h))
default_chosen none (some r) = (ground arith, ground arith)

default_iff :
    (bench : BenchSpec)
    → (is_some (scaled_spec (worker_config bench default_worker)) ≡ true)
      ↔ CompleteIn (configured_for default_worker bench.worker_autoscaling)
unfolding worker_config get_worker_autoscaling_config
default_iff bench = ↔_trans (scaled_spec_iff (worker_config bench default_worker)) (
    ↔_trans (default_filled (get_worker_autoscaling_config bench default_worker)) (
      default_chosen (configured_for default_worker bench.worker_autoscaling)
        bench.component_replicas))

scalable :
    (bench : BenchSpec) (t : WorkerType)
    → IsScalable t
    → is_some (scaled_spec (worker_config bench t)) ≡ true
unfolding worker_config
scalable bench t p =
    (scaled_spec_iff (worker_config bench t)).1
      (fill_autoscaling_defaults-IsComplete t (get_worker_autoscaling_config bench t) p)

-- What a bench has to set so that a worker of the type can be scaled.
abbrev pub ScalesIn : BenchSpec → WorkerType → Type 0
ScalesIn bench short_worker = Unit
ScalesIn bench long_worker = Unit
ScalesIn bench default_worker = CompleteIn (configured_for default_worker bench.worker_autoscaling)

-- For the short and the long workers of any bench the five numbers of a ScaledObject are all there,
-- and for the default worker they are there exactly if the bench sets all five for that worker.
pub scaled_spec-ScalesIn_iff :
    (bench : BenchSpec) (t : WorkerType)
    → (is_some (scaled_spec (worker_config bench t)) ≡ true) ↔ ScalesIn bench t
scaled_spec-ScalesIn_iff bench short_worker = ((λ s. tt), (λ u. scalable bench short_worker tt))
scaled_spec-ScalesIn_iff bench long_worker = ((λ s. tt), (λ u. scalable bench long_worker tt))
scaled_spec-ScalesIn_iff bench default_worker = default_iff bench

-- The bench switches the autoscaling on.
abbrev pub EnabledIn : Option WorkerAutoscaling → Type 0
EnabledIn none = ⊥
EnabledIn (some c) = c.enabled ≡ some true

or_false : (o : Option Bool) → (deref_or (or_else o (some false)) false ≡ true) ↔ (o ≡ some true)
or_false none = ((λ e. absurd (false≢true e)), (λ e. cc))
or_false (some b) = ((λ e. ap some e), (λ e. cc))

enabled_chosen :
    (o : Option WorkerAutoscaling) (r : Option ComponentReplicas)
    → (is_enabled
          (fill_autoscaling_defaults (or_else o (legacy_of default_worker r)) default_worker)
        ≡ true)
      ↔ EnabledIn o
unfolding legacy_of fill_autoscaling_defaults fill_with get_default_autoscaling_config
enabled_chosen (some c) r = or_false c.enabled
enabled_chosen none none = ((λ e. absurd (false≢true e)), (λ e. absurd e))
enabled_chosen none (some r) = ((λ e. absurd (false≢true e)), (λ e. absurd e))

-- The default worker scales only if the bench says so for it.
pub worker_config-EnabledIn_iff :
    (bench : BenchSpec)
    → (is_enabled (worker_config bench default_worker) ≡ true)
      ↔ EnabledIn (configured_for default_worker bench.worker_autoscaling)
unfolding worker_config get_worker_autoscaling_config
worker_config-EnabledIn_iff bench =
    enabled_chosen (configured_for default_worker bench.worker_autoscaling) bench.component_replicas
