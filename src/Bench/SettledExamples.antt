-- ===== src/Bench/SettledExamples.antt =====
-- A bench that has all that it asks for, and one at the end of its deletion.
use Prim.Native.String.{◌++◌}
use frappe_operator.Common.{
  ◌≡◌, refl, String, true, false, none, some, [], ◌∷◌, str_eq, if◌then◌else◌, arith,
}
use frappe_operator.Common.Int.{ℤ, pos}
use frappe_operator.Pods.{Deployed}
use frappe_operator.Types.{NamespacedName, BenchStatus, Bench}
use frappe_operator.Kube.{
  delete, update_finalizers, Got, got, failed, Kind, service_kind, claim_kind, deployment_kind,
  update_bench_status as write_bench_status, Api, ok, ◌>>=◌,
}
use frappe_operator.Images.{bench_image, get_bench_image}
use frappe_operator.Workers.{
  WorkerType, short_worker, long_worker, default_worker, worker_config, get_worker_replica_count,
}
use frappe_operator.Site.Status.{done}
use frappe_operator.Bench.{Setup, bench_key}
use frappe_operator.Bench.Finalizer.{
  bench_finalizer, has_bench_finalizer, drop_bench_finalizer, dependent_sites, with_finalizers,
}
use frappe_operator.Bench.Finalizer.Deleted.{IsDeletable}
use frappe_operator.Bench.Workers.{worker_suffix}
use frappe_operator.Bench.Redis.Settled.{redis_update}
use frappe_operator.Bench.Status.Settled.{ReadyStatus}
use frappe_operator.Bench.Settled.{HasWorkloads}
use frappe_operator.Bench.Reconcile.{provision, reconcile_bench}
use frappe_operator.Bench.Reconcile.Deleted.{reconcile_bench-deletes}
use frappe_operator.Bench.Reconcile.Settled.{IsSettled, reconcile_bench-settles}
use frappe_operator.Fixtures.{prod, prod_spec, ready_status, missing, empty_cluster}

abbrev setup : Setup
setup = record {
  openshift = false;
  environment = λ key. "";
  retries = 5;
  is_quantity = λ s. true;
  read_repositories = λ s. none;
}

abbrev started : Bench
started = record prod {
  finalizers = bench_finalizer ∷ [];
  status = record ready_status { phase = "Provisioning" };
}

-- The replicas of the deployment with the name.
abbrev replicas_at : String → ℤ
replicas_at name =
    if str_eq name "prod-worker-short"
    then get_worker_replica_count (worker_config prod_spec short_worker) false
    else if str_eq name "prod-worker-long"
    then get_worker_replica_count (worker_config prod_spec long_worker) false
    else get_worker_replica_count (worker_config prod_spec default_worker) false

abbrev deployment_at : String → Deployed
deployment_at name = record {
  image = some "acme/erp:v15";
  replicas = some (replicas_at name);
  status_replicas = pos 1;
  ready_replicas = pos 1;
}

abbrev redis_server : Deployed
redis_server = deployment_at "prod-redis-cache"

abbrev deployed_at : Kind → NamespacedName → Got Deployed
deployed_at deployment_kind k = got (deployment_at k.name)
deployed_at _ k = got redis_server

abbrev exists_at : Kind → Got (Unit {0})
exists_at service_kind = got tt
exists_at claim_kind = got tt
exists_at _ = failed missing

abbrev full_cluster : Api
full_cluster = record empty_cluster {
  get_bench = λ h k. got started;
  get_job = λ h k. got (record { succeeded = 1; failures = 0 });
  get_deployed = λ h kind k. deployed_at kind k;
  exists = λ h kind k. exists_at kind;
}

replicas_are :
    (t : WorkerType)
    → some (replicas_at ("prod" ++ worker_suffix t))
      ≡ some (get_worker_replica_count (worker_config prod_spec t) false)
replicas_are short_worker = refl
replicas_are long_worker = refl
replicas_are default_worker = refl

started-HasWorkloads : HasWorkloads full_cluster started
unfolding bench_image get_bench_image ◌>>=◌
started-HasWorkloads = record {
  services = λ h k. refl;
  image = "acme/erp:v15";
  chosen = λ h. refl;
  deployed = λ suffix. deployment_at ("prod" ++ suffix);
  read = λ h suffix. refl;
  current = λ suffix. refl;
  scaled = replicas_are;
  absent = missing;
  is_absent = refl;
  unlisted = λ h. refl;
  unscaled = λ h k. refl;
}

started-IsSettled : IsSettled full_cluster started
started-IsSettled = record {
  workloads = started-HasWorkloads;
  claim = λ h. refl;
  job = record { succeeded = 1; failures = 0 };
  ran = λ h. refl;
  succeeded = ground arith;
  server = redis_server;
  servers = λ h k. refl;
  owned = λ k. refl;
  accepts = λ h c. refl;
  latest = started;
  found = λ h. refl;
}

is_held : has_bench_finalizer (bench_finalizer ∷ []) ≡ true
unfolding has_bench_finalizer
is_held = refl

reconcile_bench-settles_example :
    (st : BenchStatus) × ReadyStatus started st
    × (reconcile_bench setup (bench_key started "") full_cluster [] ≡ (
      ok done,
      write_bench_status (bench_key started "") st
          ∷ redis_update setup started "redis-queue"
          ∷ redis_update setup started "redis-cache"
          ∷ write_bench_status (bench_key started "") started.status
          ∷ [],
    ))
reconcile_bench-settles_example =
    reconcile_bench-settles full_cluster setup started started-IsSettled (bench_key started "") []
      refl refl is_held

abbrev deleted : Bench
deleted = record started { deleting = true }

abbrev stopped_cluster : Api
stopped_cluster = record empty_cluster {
  get_bench = λ h k. got deleted;
  exists = λ h kind k. exists_at kind;
}

deleted-IsDeletable : IsDeletable stopped_cluster deleted
unfolding dependent_sites
deleted-IsDeletable = record {
  deleting = refl;
  held = is_held;
  sites = [];
  listed = λ h. refl;
  independent = refl;
  idle = λ h kind suffix. tt;
  claim = λ h. refl;
  accepts = λ h c. refl;
  latest = deleted;
  found = λ h. refl;
}

reconcile_bench-deletes_example :
    (has_bench_finalizer (drop_bench_finalizer deleted.finalizers) ≡ false)
    × (reconcile_bench setup (bench_key deleted "") stopped_cluster []
        ≡ provision setup
            (with_finalizers (drop_bench_finalizer deleted.finalizers) deleted)
            stopped_cluster
            (update_finalizers (bench_key deleted "") (drop_bench_finalizer deleted.finalizers)
              ∷ delete claim_kind (bench_key deleted "-sites")
              ∷ write_bench_status (bench_key deleted "") deleted.status
              ∷ []))
reconcile_bench-deletes_example =
    reconcile_bench-deletes stopped_cluster setup deleted deleted-IsDeletable (bench_key deleted "")
      [] refl
