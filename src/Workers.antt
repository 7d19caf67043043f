-- ===== src/Workers.antt =====
-- How many workers a bench runs, and how KEDA scales them: the autoscaling helpers of
-- controllers/frappebench_helpers.go, and what `ensureWorkers` and `ensureScaledObject` of
-- controllers/frappebench_workers.go make of them.
pub mod Scaling
pub mod Replicas
mod Examples
use Prim.Native.String.{◌++◌}
use frappe_operator.Common.{
  ℕ, String, Bool, true, false, ◌&&◌, Option, none, some, or_else, deref_or, if◌then◌else◌, not,
}
use frappe_operator.Common.Int.{ℤ, pos, negsuc, lebℤ}
use frappe_operator.Pods.{ScaledSpec}
use frappe_operator.Types.{ComponentReplicas, WorkerAutoscaling, WorkerAutoscalingConfig, BenchSpec}

-- The names `short`, `long` and `default`, which are all that the code passes.
pub data WorkerType : Type 0 where
  short_worker long_worker default_worker : WorkerType

-- A configuration with all fields missing.
abbrev pub unset_autoscaling : WorkerAutoscaling
unset_autoscaling = record {
  enabled = none;
  static_replicas = none;
  min_replicas = none;
  max_replicas = none;
  queue_length = none;
  cooldown_period = none;
  polling_interval = none;
}

abbrev configured_of : WorkerType → WorkerAutoscalingConfig → Option WorkerAutoscaling
configured_of short_worker c = c.short
configured_of long_worker c = c.long
configured_of default_worker c = c.default

abbrev pub configured_for : WorkerType → Option WorkerAutoscalingConfig → Option WorkerAutoscaling
configured_for t none = none
configured_for t (some c) = configured_of t c

-- `if n > 0 { n } else { d }`
abbrev pub positive_or : ℤ → ℕ → ℤ
positive_or n d = if lebℤ n (pos 0) then pos d else n

abbrev pub legacy_replicas : WorkerType → ComponentReplicas → ℤ
legacy_replicas short_worker r = positive_or r.worker_short 2
legacy_replicas long_worker r = positive_or r.worker_long 1
legacy_replicas default_worker r = positive_or r.worker_default 1

legacy_of : WorkerType → Option ComponentReplicas → Option WorkerAutoscaling
legacy_of t none = none
legacy_of t (some r) = some (record unset_autoscaling {
  enabled = some false;
  static_replicas = some (legacy_replicas t r);
})

unfoldable pub get_worker_autoscaling_config : BenchSpec → WorkerType → Option WorkerAutoscaling
unfolding legacy_of
get_worker_autoscaling_config bench t =
    or_else (configured_for t bench.worker_autoscaling) (legacy_of t bench.component_replicas)

unfoldable pub get_default_autoscaling_config : WorkerType → WorkerAutoscaling
get_default_autoscaling_config short_worker = record {
  enabled = some true;
  static_replicas = none;
  min_replicas = some (pos 0);
  max_replicas = some (pos 10);
  queue_length = some (pos 5);
  cooldown_period = some (pos 60);
  polling_interval = some (pos 15);
}
get_default_autoscaling_config long_worker = record {
  enabled = some true;
  static_replicas = none;
  min_replicas = some (pos 0);
  max_replicas = some (pos 5);
  queue_length = some (pos 2);
  cooldown_period = some (pos 300);
  polling_interval = some (pos 30);
}
get_default_autoscaling_config default_worker = record unset_autoscaling {
  enabled = some false;
  static_replicas = some (pos 1);
}

fill_with : WorkerAutoscaling → Option WorkerAutoscaling → WorkerAutoscaling
fill_with d none = d
fill_with d (some c) = record {
  enabled = or_else c.enabled d.enabled;
  static_replicas = or_else c.static_replicas d.static_replicas;
  min_replicas = or_else c.min_replicas d.min_replicas;
  max_replicas = or_else c.max_replicas d.max_replicas;
  queue_length = or_else c.queue_length d.queue_length;
  cooldown_period = or_else c.cooldown_period d.cooldown_period;
  polling_interval = or_else c.polling_interval d.polling_interval;
}

unfoldable pub fill_autoscaling_defaults : Option WorkerAutoscaling → WorkerType → WorkerAutoscaling
unfolding fill_with get_default_autoscaling_config
fill_autoscaling_defaults c t = fill_with (get_default_autoscaling_config t) c

abbrev pub is_enabled : WorkerAutoscaling → Bool
is_enabled c = deref_or c.enabled false

unfoldable pub get_worker_replica_count : WorkerAutoscaling → Bool → ℤ
get_worker_replica_count c keda_available =
    if is_enabled c && keda_available
    then deref_or c.min_replicas (pos 0)
    else deref_or c.static_replicas (pos 1)

-- The configuration that `ensureWorkers` works with.
unfoldable pub worker_config : BenchSpec → WorkerType → WorkerAutoscaling
unfolding get_worker_autoscaling_config fill_autoscaling_defaults
worker_config bench t = fill_autoscaling_defaults (get_worker_autoscaling_config bench t) t

infixl 5 ◌>>=◌
-- What follows a dereference.
abbrev ◌>>=◌ : {A B : Type 0} → Option A → (A → Option B) → Option B
none >>= f = none
some a >>= f = f a

-- The five dereferences of `ensureScaledObject`; `none` is a nil dereference.
unfoldable pub scaled_spec : WorkerAutoscaling → Option ScaledSpec
scaled_spec c = do
  min ← c.min_replicas
  max ← c.max_replicas
  cooldown ← c.cooldown_period
  polling ← c.polling_interval
  queue ← c.queue_length
  some (record {
    min_replica_count = min;
    max_replica_count = max;
    cooldown_period = cooldown;
    polling_interval = polling;
    list_length = queue;
  })
