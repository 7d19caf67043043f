-- ===== src/Workers/Replicas.antt =====
-- How many replicas a worker has.
use frappe_operator.Common.{◌≡◌, refl, Bool, Option, none, some, or_else, arith}
use frappe_operator.Common.Int.{ℤ, pos, ◌≤ℤ◌}
use frappe_operator.Types.{ComponentReplicas, WorkerAutoscaling, BenchSpec}
use frappe_operator.Workers.{
  WorkerType, default_worker, positive_or, legacy_replicas, configured_for, legacy_of,
  get_worker_autoscaling_config, get_default_autoscaling_config, fill_with,
  fill_autoscaling_defaults, get_worker_replica_count, worker_config,
}

legacy_count :
    (t : WorkerType) (r : ComponentReplicas) (keda : Bool) (o : Option WorkerAutoscaling)
    → o ≡ none
    → get_worker_replica_count (fill_autoscaling_defaults (or_else o (legacy_of t (some r))) t) keda
      ≡ legacy_replicas t r
unfolding get_worker_replica_count fill_autoscaling_defaults fill_with legacy_of
    get_default_autoscaling_config
legacy_count t r keda (some c) e = cc
legacy_count t r keda none e = refl

-- A bench with legacy replicas and no autoscaling for a worker runs the legacy number of that worker,
-- if it is positive, and otherwise two short, one long and one default worker, with and without KEDA.
pub get_worker_replica_count-legacy :
    (bench : BenchSpec) (r : ComponentReplicas) (t : WorkerType) (keda : Bool)
    → bench.component_replicas ≡ some r
    → configured_for t bench.worker_autoscaling ≡ none
    → get_worker_replica_count (worker_config bench t) keda ≡ legacy_replicas t r
unfolding worker_config get_worker_autoscaling_config
get_worker_replica_count-legacy bench r t keda l c = rw l (legacy_count t r keda _ c)

positive_or-pos : (n : ℤ) → pos 1 ≤ℤ positive_or n 1
positive_or-pos n = ground arith

default_count :
    (r : Option ComponentReplicas) (keda : Bool) (o : Option WorkerAutoscaling)
    → o ≡ none
    → pos 1
      ≤ℤ get_worker_replica_count
          (fill_autoscaling_defaults (or_else o (legacy_of default_worker r)) default_worker)
          keda
unfolding get_worker_replica_count fill_autoscaling_defaults fill_with legacy_of
    get_default_autoscaling_config
default_count r keda (some c) e = cc
default_count none keda none e = ground arith
default_count (some r) keda none e = positive_or-pos r.worker_default

-- A bench that configures no autoscaling for the default worker always has one of it or more.
pub get_worker_replica_count-default :
    (bench : BenchSpec) (keda : Bool)
    → configured_for default_worker bench.worker_autoscaling ≡ none
    → pos 1 ≤ℤ get_worker_replica_count (worker_config bench default_worker) keda
unfolding worker_config get_worker_autoscaling_config
get_worker_replica_count-default bench keda c = default_count bench.component_replicas keda _ c
