-- ===== src/Bench/Status.antt =====
-- The status of a bench, less its conditions: `updateStatus`, `updateWorkerScalingStatus` and
-- `updateBenchStatus` of controllers/frappebench_controller.go.
pub mod Writes
pub mod Settled
use frappe_operator.Common.{
  String, Bool, true, false, ◌&&◌, ◌||◌, not, Option, none, some, List, [], ◌∷◌, str_eq, deref_or,
  map, ltb, if◌then◌else◌,
}
use frappe_operator.Common.Int.{ℤ, pos, lebℤ}
use frappe_operator.Pods.{Deployed}
use frappe_operator.Types.{
  NamespacedName, AppSource, FpmRepository, WorkerScalingStatus, BenchStatus, Bench,
}
use frappe_operator.Kube.{
  Got, got, failed, Job, deployment_kind, update_bench_status as write_bench_status, History, Api,
  M, pure, raise, ◌>>=◌, ◌>>◌, ask, perform,
}
use frappe_operator.Kube.Retry.{retry_on_conflict}
use frappe_operator.Workers.{
  WorkerType, short_worker, long_worker, default_worker, is_enabled, worker_config,
}
use frappe_operator.Bench.{Setup, bench_key}
use frappe_operator.Bench.Lifecycle.{init_key}
use frappe_operator.Bench.Workers.{worker_name, worker_suffix, keda_listed}

put_status : Bench → Got Bench → M (Unit {0})
put_status bench (failed e) = raise e
put_status bench (got latest) =
    perform (λ e. e) (write_bench_status (bench_key bench "") bench.status)

try_status : Bench → M (Unit {0})
unfolding put_status
try_status bench = ask (λ (api : Api) h. api.get_bench h (bench_key bench "")) >>= put_status bench

unfoldable pub update_status : Setup → Bench → M (Unit {0})
unfolding try_status
update_status setup bench = retry_on_conflict setup.retries (try_status bench)

abbrev at_least_zero : ℤ → ℤ
at_least_zero n = if lebℤ n (pos 0) then pos 0 else n

abbrev scaling_of : Bool → Deployed → WorkerScalingStatus
scaling_of managed d = record {
  mode = if managed then "autoscaled" else "static";
  current_replicas = at_least_zero d.status_replicas;
  desired_replicas = deref_or d.replicas (pos 0);
  keda_managed = managed;
}

set_scaling :
    Bool
    → Bench
    → WorkerType
    → Got Deployed
    → List (String × WorkerScalingStatus)
    → List (String × WorkerScalingStatus)
set_scaling available bench t (failed e) m = m
set_scaling available bench t (got d) m =
    (worker_name t, scaling_of (available && is_enabled (worker_config bench.spec t)) d) ∷ m

scaling_in :
    Api
    → History
    → Bench
    → WorkerType
    → List (String × WorkerScalingStatus)
    → List (String × WorkerScalingStatus)
unfolding set_scaling
scaling_in api h bench t m =
    set_scaling (keda_listed (api.list_scaled_objects h)) bench t
      (api.get_deployed h deployment_kind (bench_key bench (worker_suffix t))) m

abbrev pub with_scaling : List (String × WorkerScalingStatus) → Bench → Bench
with_scaling m bench = record bench { status = record bench.status { worker_scaling = m } }

-- It never fails.
pub update_worker_scaling_status : Bench → M Bench
unfolding scaling_in
update_worker_scaling_status bench = ask (λ (api : Api) h.
    with_scaling
      (scaling_in api h bench short_worker (
        scaling_in api h bench long_worker
          (scaling_in api h bench default_worker bench.status.worker_scaling)))
      bench)

abbrev pub started_phase : String → String
started_phase phase =
    if str_eq phase "" || (not (str_eq phase "Provisioning") && not (str_eq phase "Ready"))
    then "Provisioning"
    else phase

unfoldable pub phase_by : Got Job → String → String
phase_by (failed e) phase = phase
phase_by (got job) phase =
    if ltb 0 job.succeeded then "Ready" else if ltb 0 job.failures then "Failed" else phase

pub finished_status : Got Job → Bool → List FpmRepository → Bench → BenchStatus
unfolding phase_by
finished_status job git repositories bench = record bench.status {
  phase = phase_by job (started_phase bench.status.phase);
  installed_apps = map (λ (a : AppSource). a.name) bench.spec.apps;
  git_enabled = git;
  fpm_repositories = map (λ (r : FpmRepository). r.name) repositories;
  observed_generation = bench.generation;
}

unfoldable pub update_bench_status : Setup → Bool → List FpmRepository → Bench → M (Unit {0})
unfolding finished_status
update_bench_status setup git repositories bench =
    ask (λ (api : Api) h. api.get_job h (init_key bench)) >>= λ job.
    update_status setup (record bench { status = finished_status job git repositories bench })
