-- ===== src/Bench/Workers.antt =====
-- The workers of a bench and their ScaledObjects: controllers/frappebench_workers.go.
pub mod Writes
pub mod Scaling
pub mod Panics
use Prim.Native.String.{◌++◌}
use frappe_operator.Common.{
  String, Bool, true, false, ◌&&◌, not, Option, none, some, List, [], ◌∷◌, str_eq, deref_or,
  if◌then◌else◌,
}
use frappe_operator.Common.Int.{ℤ, pos, negsuc, lebℤ}
use frappe_operator.Pods.{
  ResourceRequirements, Container, DeploymentSpec, Deployed, ScaledSpec, ScaledObject,
  create_deployment, update_deployment, create_scaled_object, update_scaled_object,
}
use frappe_operator.Types.{WorkerAutoscaling, BenchSpec, Bench}
use frappe_operator.Kube.{
  Err, wrap, Got, got, failed, deployment_kind, scaled_object_kind, workload, delete, Api, M, pure,
  raise, nil_dereference, ◌>>=◌, ◌>>◌, ask, perform, check, try, is_not_found,
}
use frappe_operator.Images.{bench_image}
use frappe_operator.Resources.{◌▷◌, create_owned}
use frappe_operator.Resources.ContainerBuilder.{
  new_container_builder, with_args, with_env, with_resources, with_security_context,
}
use frappe_operator.Resources.DeploymentBuilder as DeploymentBuilder
use frappe_operator.Workers.{
  WorkerType, short_worker, long_worker, default_worker, is_enabled, get_worker_replica_count,
  worker_config, scaled_spec,
}
use frappe_operator.Bench.{
  Setup, bench_key, resources_in, requirements, container_context, pod_context, deployment_spec,
  applied_to,
}
use frappe_operator.Bench.Components.{with_sites}
use frappe_operator.Bench.Redis.{get_redis_address}

abbrev pub worker_name : WorkerType → String
worker_name short_worker = "short"
worker_name long_worker = "long"
worker_name default_worker = "default"

abbrev pub worker_suffix : WorkerType → String
worker_suffix t = "-worker-" ++ worker_name t

abbrev set_worker_resources : WorkerType → BenchSpec → Option ResourceRequirements
set_worker_resources short_worker s = resources_in (λ r. r.worker_short) s.component_resources
set_worker_resources long_worker s = resources_in (λ r. r.worker_long) s.component_resources
set_worker_resources default_worker s = resources_in (λ r. r.worker_default) s.component_resources

abbrev pub worker_resources : WorkerType → BenchSpec → ResourceRequirements
worker_resources t s = deref_or (set_worker_resources t s) (requirements "500m" "1Gi" "2" "4Gi")

-- Only a missing resource type says that KEDA is not there.
abbrev pub keda_listed : Got (Unit {0}) → Bool
keda_listed (got x) = true
keda_listed (failed e) = not (is_not_found e)

unfoldable pub is_keda_available : M Bool
is_keda_available = ask (λ (api : Api) h. keda_listed (api.list_scaled_objects h))

abbrev pub worker_container : Setup → Bench → WorkerType → String → Container
worker_container setup bench t image =
    new_container_builder "worker" image
    ▷ with_args ("bench" ∷ "worker" ∷ "--queue" ∷ worker_name t ∷ [])
    ▷ with_sites
    ▷ with_resources (worker_resources t bench.spec)
    ▷ with_security_context (some (container_context setup bench))
    ▷ with_env "USER" "frappe"

abbrev pub scaling_annotations : Bool → List (String × String)
scaling_annotations managed =
    if managed
    then ("keda.sh/managed-by", "keda") ∷ ("frappe.io/scaling-mode", "autoscaled") ∷ []
    else ("frappe.io/scaling-mode", "static") ∷ []

-- The deployment with the new image, and whether that is a change.
abbrev with_image : String → String → Deployed → Deployed × Bool
with_image old image d =
    if str_eq old image then (d, false) else (record d { image = some image }, true)

abbrev pub same_int : ℤ → ℤ → Bool
same_int a b = lebℤ a b && lebℤ b a

-- The same for the replicas, which are dereferenced and compared only if KEDA does not manage them.
with_replicas : Bool → ℤ → Option ℤ → Deployed × Bool → M (Deployed × Bool)
with_replicas managed replicas none (d, changed) =
    if managed then pure (d, changed) else nil_dereference
with_replicas managed replicas (some old) (d, changed) =
    if managed
    then pure (d, changed)
    else if same_int old replicas
    then pure (d, changed)
    else pure (record d { replicas = some replicas }, true)

update_if : Bench → WorkerType → Deployed × Bool → M (Unit {0})
update_if bench t (d, changed) =
    if changed
    then perform (λ e. e) (workload (bench_key bench (worker_suffix t)) (update_deployment d))
    else pure tt

update_by : Bench → WorkerType → Bool → ℤ → Deployed → String → Option String → M (Unit {0})
unfolding with_replicas update_if
update_by bench t managed replicas d image none = nil_dereference
update_by bench t managed replicas d image (some old) =
    with_replicas managed replicas d.replicas (with_image old image d) >>= update_if bench t

update_worker : Bench → WorkerType → Bool → ℤ → Deployed → String → M (Unit {0})
unfolding update_by
update_worker bench t managed replicas d image = update_by bench t managed replicas d image d.image

pub worker_spec :
    Setup → Bench → WorkerType → Bool → ℤ → Got (List (String × String)) → String → DeploymentSpec
unfolding deployment_spec
worker_spec setup bench t managed replicas namespace image =
    deployment_spec bench ("worker-" ++ worker_name t) replicas (applied_to bench).0
      (pod_context setup bench namespace) (worker_container setup bench t image)
    ▷ DeploymentBuilder.with_annotations (scaling_annotations managed)

create_worker : Setup → Bench → WorkerType → Bool → ℤ → M Bench
unfolding worker_spec
create_worker setup bench t managed replicas = bench_image bench >>= λ image.
    ask (λ (api : Api) h. api.namespace_annotations h bench.namespace) >>= λ namespace.
    create_owned (bench_key bench (worker_suffix t)) (
      workload (bench_key bench (worker_suffix t))
        (create_deployment (worker_spec setup bench t managed replicas namespace image)))
    >> pure (applied_to bench).1

worker_by : Setup → Bench → WorkerType → Bool → ℤ → Got Deployed → M Bench
unfolding create_worker update_worker
worker_by setup bench t managed replicas (got d) =
    bench_image bench >>= λ image. update_worker bench t managed replicas d image >> pure bench
worker_by setup bench t managed replicas (failed e) =
    if not (is_not_found e) then raise e else create_worker setup bench t managed replicas

unfoldable pub ensure_worker_deployment : Setup → Bench → WorkerType → Bool → ℤ → M Bench
unfolding worker_by
ensure_worker_deployment setup bench t managed replicas =
    ask (λ (api : Api) h. api.get_deployed h deployment_kind (bench_key bench (worker_suffix t)))
    >>= worker_by setup bench t managed replicas

delete_found : Bench → WorkerType → Got (Unit {0}) → M (Unit {0})
delete_found bench t (got x) =
    perform (λ e. e) (delete scaled_object_kind (bench_key bench (worker_suffix t)))
delete_found bench t (failed e) = if is_not_found e then pure tt else raise e

unfoldable pub delete_scaled_object_if_exists : Bench → WorkerType → M (Unit {0})
unfolding delete_found
delete_scaled_object_if_exists bench t =
    ask (λ (api : Api) h. api.exists h scaled_object_kind (bench_key bench (worker_suffix t)))
    >>= delete_found bench t

abbrev pub scaled_object : Bench → WorkerType → ScaledSpec → ScaledObject
scaled_object bench t numbers = record {
  target = bench.name ++ worker_suffix t;
  address = get_redis_address bench;
  list_name = "rq:queue:" ++ worker_name t;
  numbers = numbers;
}

put_scaled_object : Bench → WorkerType → ScaledObject → Got (Unit {0}) → M (Unit {0})
put_scaled_object bench t o (got x) =
    perform (λ e. e) (workload (bench_key bench (worker_suffix t)) (update_scaled_object o))
put_scaled_object bench t o (failed e) =
    if is_not_found e
    then perform (λ e'. e') (workload (bench_key bench (worker_suffix t)) (create_scaled_object o))
    else raise e

build_scaled_object : Bench → WorkerType → Option ScaledSpec → M (Unit {0})
unfolding put_scaled_object
build_scaled_object bench t none = nil_dereference
build_scaled_object bench t (some numbers) =
    ask (λ (api : Api) h. api.set_controller_reference (bench_key bench (worker_suffix t))) >>= λ o.
    check (wrap "failed to set owner reference: ") o
    >> (ask (λ (api : Api) h. api.exists h scaled_object_kind (bench_key bench (worker_suffix t)))
        >>= put_scaled_object bench t (scaled_object bench t numbers))

unfoldable pub ensure_scaled_object : Bench → WorkerType → WorkerAutoscaling → M (Unit {0})
unfolding build_scaled_object
ensure_scaled_object bench t config =
    if not (is_enabled config)
    then delete_scaled_object_if_exists bench t
    else is_keda_available >>= λ available.
        if not available then pure tt else build_scaled_object bench t (scaled_spec config)

-- One turn of the loop. An error of the ScaledObject is only logged.
unfoldable pub ensure_worker : Setup → Bool → WorkerType → Bench → M Bench
ensure_worker setup available t bench =
    let config = worker_config bench.spec t in
    ensure_worker_deployment setup bench t (available && is_enabled config)
      (get_worker_replica_count config available)
    >>= λ b. try (ensure_scaled_object b t config) >>= λ r. pure b

unfoldable pub ensure_workers : Setup → Bench → M Bench
unfolding ensure_worker
ensure_workers setup bench = is_keda_available >>= λ available.
    ensure_worker setup available default_worker bench
    >>= ensure_worker setup available long_worker
    >>= ensure_worker setup available short_worker
