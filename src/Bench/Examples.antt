-- ===== src/Bench/Examples.antt =====
-- Tests of the benches, and their theorems at concrete inputs.
use mathlib.Core.Bool.{false≢true}
use frappe_operator.Common.{◌≡◌, ◌↔◌, refl, String, true, false, none, some, [], ◌∷◌, arith}
use frappe_operator.Common.Int.{pos}
use frappe_operator.Types.{NamespacedName, Bench}
use frappe_operator.Pods.{Container, Deployed, PodSecurityContext}
use frappe_operator.Kube.{got, Job, Api, lookup}
use frappe_operator.Kube.Ensures.{Ensures, Anything}
use frappe_operator.Resources.ContainerBuilder.{new_container_builder}
use frappe_operator.PodConfig.{Applied}
use frappe_operator.Workers.{unset_autoscaling, default_worker, worker_config, long_worker}
use frappe_operator.Bench.{Setup, bench_key, service_spec, deployment_spec}
use frappe_operator.Bench.Redis.{redis_service_spec, redis_stateful_set_spec}
use frappe_operator.Bench.Workers.{worker_suffix, ensure_worker_deployment, ensure_scaled_object}
use frappe_operator.Bench.Workers.Panics.{is_panic, Panics, ensure_scaled_object-Panics_iff}
use frappe_operator.Bench.Workers.Scaling.{ScalingCall, ensure_worker_deployment-Scales}
use frappe_operator.Bench.Lifecycle.{is_git_enabled, merge_fpm_repositories}
use frappe_operator.Bench.Status.{phase_by}
use frappe_operator.Bench.Finalizer.{
  bench_finalizer, has_bench_finalizer, drop_bench_finalizer, dependent_sites,
}
use frappe_operator.Bench.Finalizer.Blocked.{StatusCall}
use frappe_operator.Bench.Reconcile.{provision, reconcile_bench}
use frappe_operator.Bench.Reconcile.Waiting.{IdleCall, InTenSeconds, provision-waits}
use frappe_operator.Bench.Reconcile.Blocked.{reconcile_bench-waits}
use frappe_operator.Bench.Selectors.{Selects, service-Selects}
use frappe_operator.Fixtures.{prod, prod_spec, shop, bench_cluster}

abbrev setup : Setup
setup = record {
  openshift = false;
  environment = λ key. "";
  retries = 5;
  is_quantity = λ s. true;
  read_repositories = λ s. none;
}

abbrev prod_key : NamespacedName
prod_key = record { name = "prod"; namespace = "web" }

abbrev failed_job : Job
failed_job = record { succeeded = 0; failures = 4 }

abbrev failing_cluster : Api
failing_cluster = record bench_cluster { get_job = λ h k. got failed_job }

provision-waits_example :
    Ensures failing_cluster (IdleCall prod) InTenSeconds (provision setup prod)
provision-waits_example = provision-waits failing_cluster setup prod (λ h p. ground arith)

abbrev deleted_bench : Bench
deleted_bench = record prod { deleting = true; finalizers = bench_finalizer ∷ [] }

abbrev deleting_cluster : Api
deleting_cluster = record bench_cluster {
  get_bench = λ h k. got deleted_bench;
  sites_in = λ h n. got (shop ∷ []);
}

finalizer_test :
    (has_bench_finalizer (bench_finalizer ∷ []) ≡ true)
    × (drop_bench_finalizer ("other" ∷ bench_finalizer ∷ []) ≡ "other" ∷ [])
unfolding has_bench_finalizer drop_bench_finalizer
finalizer_test = (refl, refl)

is_held : has_bench_finalizer (bench_finalizer ∷ []) ≡ true
is_held = finalizer_test.0

is_named : dependent_sites "prod" (shop ∷ []) ≡ "shop" ∷ []
unfolding dependent_sites
is_named = refl

reconcile_bench-waits_example :
    Ensures deleting_cluster
      (StatusCall deleted_bench)
      InTenSeconds
      (reconcile_bench setup prod_key)
reconcile_bench-waits_example =
    reconcile_bench-waits deleting_cluster setup deleted_bench prod_key (λ h. refl) refl is_held
      "shop" [] (shop ∷ []) is_named (λ h. refl)

abbrev five_workers : Deployed
five_workers = record {
  image = some "acme/erp:v14";
  replicas = some (pos 5);
  status_replicas = pos 5;
  ready_replicas = pos 5;
}

abbrev worker_cluster : Api
worker_cluster = record bench_cluster { get_deployed = λ h c k. got five_workers }

ensure_worker_deployment-Scales_example :
    Ensures worker_cluster
      (ScalingCall worker_cluster (bench_key prod (worker_suffix long_worker)) true (pos 0))
      Anything
      (ensure_worker_deployment setup prod long_worker true (pos 0))
ensure_worker_deployment-Scales_example =
    ensure_worker_deployment-Scales worker_cluster setup prod long_worker true (pos 0)

git_test :
    (is_git_enabled (("gitEnabled", "true") ∷ []) prod.spec ≡ true)
    × (is_git_enabled [] prod.spec ≡ false)
    × (merge_fpm_repositories setup [] prod.spec ≡ [])
unfolding is_git_enabled merge_fpm_repositories lookup
git_test = (refl, refl, refl)

phase_test :
    (phase_by (got failed_job) "Provisioning" ≡ "Failed")
    × (phase_by (got (record { succeeded = 1; failures = 2 })) "Provisioning" ≡ "Ready")
unfolding phase_by
phase_test = (refl, refl)

-- A configuration of pods that sets the labels of another component.
abbrev odd_labels : Applied
odd_labels = record {
  node_selector = [];
  affinity = none;
  tolerations = [];
  labels = ("component", "nginx") ∷ [];
}

abbrev no_context : PodSecurityContext
no_context = record {
  run_as_non_root = none;
  run_as_user = none;
  run_as_group = none;
  fs_group = none;
  fs_group_change_policy = none;
  supplemental_groups = none;
  se_linux_options = none;
  windows_options = none;
  sysctls = none;
  seccomp_profile = none;
}

abbrev odd_container : Container
odd_container = new_container_builder "gunicorn" "acme/erp:v15"

service-Selects_example :
    (Selects
        (service_spec prod "nginx" "http" (pos 8080) []).selector
        (deployment_spec prod "gunicorn"
          (pos 1)
          odd_labels
          no_context
          odd_container).template.labels
      ↔ ◌≡◌ {A = String} "nginx" "gunicorn")
    × Selects
        (deployment_spec prod "gunicorn" (pos 1) odd_labels no_context odd_container).selector
        (deployment_spec prod "gunicorn"
          (pos 1)
          odd_labels
          no_context
          odd_container).template.labels
    × (Selects
          (redis_service_spec prod "nginx").selector
          (redis_stateful_set_spec setup prod "gunicorn").template.labels
        ↔ ◌≡◌ {A = String} "redis-nginx" "redis-gunicorn")
    × Selects
        (redis_stateful_set_spec setup prod "gunicorn").selector
        (redis_stateful_set_spec setup prod "gunicorn").template.labels
service-Selects_example =
    service-Selects setup prod "nginx" "gunicorn" "http" (pos 8080) (pos 1) [] odd_labels no_context
      odd_container

-- The autoscaling of the default worker is switched on and nothing else is set.
abbrev enabled_bench : Bench
enabled_bench = record prod {
  spec = record prod_spec {
    worker_autoscaling = some (record {
      short = none;
      long = none;
      default = some (record unset_autoscaling { enabled = some true });
    });
  };
}

abbrev keda_cluster : Api
keda_cluster = record bench_cluster { list_scaled_objects = λ h. got tt }

ensure_scaled_object-Panics_iff_example :
    (is_panic
        (ensure_scaled_object enabled_bench default_worker
          (worker_config enabled_bench.spec default_worker)
          keda_cluster
          []).0
      ≡ true)
    ↔ Panics keda_cluster [] enabled_bench default_worker
ensure_scaled_object-Panics_iff_example =
    ensure_scaled_object-Panics_iff enabled_bench keda_cluster [] default_worker

panics_test : Panics keda_cluster [] enabled_bench default_worker
panics_test = (refl, tt, λ c. false≢true c.0)
