-- ===== src/Workers/Examples.antt =====
-- Tests of the workers' scaling, and its theorems at concrete inputs.
use frappe_operator.Common.{◌≡◌, refl, true, none, some, is_some}
use frappe_operator.Common.Int.{pos, negsuc}
use frappe_operator.Types.{ComponentReplicas, BenchSpec}
use frappe_operator.Workers.{
  short_worker, long_worker, default_worker, unset_autoscaling, get_default_autoscaling_config,
  get_worker_replica_count, worker_config, scaled_spec,
}
use frappe_operator.Fixtures.{prod_spec}

abbrev legacy : ComponentReplicas
legacy = record {
  gunicorn = pos 1;
  nginx = pos 1;
  socketio = pos 1;
  worker_default = pos 0;
  worker_long = pos 3;
  worker_short = negsuc 0;
}

abbrev legacy_spec : BenchSpec
legacy_spec = record prod_spec { component_replicas = some legacy }

-- Autoscaling of the default worker is switched on and nothing else is set.
abbrev enabled_spec : BenchSpec
enabled_spec = record prod_spec {
  worker_autoscaling = some (record {
    short = none;
    long = none;
    default = some (record unset_autoscaling { enabled = some true });
  });
}

long_test : is_some (scaled_spec (worker_config legacy_spec long_worker)) ≡ true
unfolding scaled_spec worker_config get_default_autoscaling_config
long_test = refl

scaled_to_zero_test : get_worker_replica_count (worker_config prod_spec short_worker) true ≡ pos 0
unfolding get_worker_replica_count worker_config get_default_autoscaling_config
scaled_to_zero_test = refl

panic_test : scaled_spec (worker_config enabled_spec default_worker) ≡ none
unfolding scaled_spec worker_config get_default_autoscaling_config
panic_test = refl
