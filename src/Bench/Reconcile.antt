-- ===== src/Bench/Reconcile.antt =====
-- `Reconcile` of controllers/frappebench_controller.go.
pub mod Writes
pub mod Blocked
pub mod Settled
pub mod Deleted
pub mod Waiting
use frappe_operator.Common.{String, Bool, List, not, if◌then◌else◌}
use frappe_operator.Common.Int.{pos}
use frappe_operator.Types.{NamespacedName, FpmRepository, Bench}
use frappe_operator.Kube.{Got, got, failed, Api, M, pure, raise, ◌>>=◌, ◌>>◌, ask, is_not_found}
use frappe_operator.Site.Status.{Requeue, done, after}
use frappe_operator.Storage.{ensure_bench_storage}
use frappe_operator.Bench.{Setup}
use frappe_operator.Bench.Components.{
  ensure_gunicorn, ensure_nginx, ensure_socketio, ensure_scheduler,
}
use frappe_operator.Bench.Redis.{ensure_redis}
use frappe_operator.Bench.Workers.{ensure_workers}
use frappe_operator.Bench.Lifecycle.{
  config_data, is_git_enabled, merge_fpm_repositories, ensure_bench_initialized,
}
use frappe_operator.Bench.Status.{update_status, update_worker_scaling_status, update_bench_status}
use frappe_operator.Bench.Finalizer.{Step, proceed, requeue, handle_finalizer}

abbrev pub operator_config_key : NamespacedName
operator_config_key = record {
  name = "frappe-operator-config";
  namespace = "frappe-operator-system";
}

-- The workloads of a bench that is initialised.
pub ensure_workloads : Setup → Bool → List FpmRepository → Bench → M Requeue
ensure_workloads setup git repositories bench =
    ensure_redis setup bench
    >> (ensure_gunicorn setup bench
        >>= ensure_nginx setup
        >>= ensure_socketio setup
        >>= ensure_scheduler setup
        >>= ensure_workers setup
        >>= update_worker_scaling_status
        >>= λ b. update_bench_status setup git repositories b >> pure done)

when_initialized : Setup → Bool → List FpmRepository → Bench → Bool → M Requeue
unfolding ensure_workloads
when_initialized setup git repositories bench ready =
    if not ready
    then pure (after (pos 10000000000))
    else ensure_workloads setup git repositories bench

with_config : Setup → Bench → List (String × String) → M Requeue
unfolding when_initialized
with_config setup bench config =
    ensure_bench_storage setup.is_quantity bench
    >> (ensure_bench_initialized bench
        >>= when_initialized setup (is_git_enabled config bench.spec)
            (merge_fpm_repositories setup config bench.spec) bench)

pub provision : Setup → Bench → M Requeue
unfolding with_config
provision setup bench =
    update_status setup bench
    >> (ask (λ (api : Api) h. config_data (api.get_config_map h operator_config_key))
        >>= with_config setup bench)

after_finalizer : Setup → Step → M Requeue
unfolding provision
after_finalizer setup (requeue d) = pure (after d)
after_finalizer setup (proceed bench) = provision setup bench

reconcile_found : Setup → Got Bench → M Requeue
unfolding after_finalizer
reconcile_found setup (failed e) = if is_not_found e then pure done else raise e
reconcile_found setup (got bench) = handle_finalizer setup bench >>= after_finalizer setup

unfoldable pub reconcile_bench : Setup → NamespacedName → M Requeue
unfolding reconcile_found
reconcile_bench setup key = ask (λ (api : Api) h. api.get_bench h key) >>= reconcile_found setup
