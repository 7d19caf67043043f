-- ===== src/Bench/Redis.antt =====
-- The two Redis servers of a bench: controllers/frappebench_redis.go.
pub mod Writes
pub mod Settled
use Prim.Native.String.{◌++◌}
use frappe_operator.Common.{
  String, Option, none, some, [], ◌∷◌, str_eq, not, deref_or, if◌then◌else◌,
}
use frappe_operator.Common.Int.{pos}
use frappe_operator.Pods.{
  ResourceRequirements, Container, ServiceSpec, StatefulSetSpec, Deployed, create_service,
  create_stateful_set, update_stateful_set,
}
use frappe_operator.Types.{RedisConfig, Bench}
use frappe_operator.Kube.{
  Got, got, failed, service_kind, stateful_set_kind, workload, Api, M, pure, raise, ◌>>=◌, ◌>>◌,
  ask, perform, set_owner, is_not_found,
}
use frappe_operator.Resources.{◌▷◌, create_owned}
use frappe_operator.Resources.ContainerBuilder.{
  new_container_builder, with_command, with_args, with_port, with_resources, with_security_context,
}
use frappe_operator.Resources.StatefulSetBuilder as StatefulSetBuilder
use frappe_operator.Security.{get_redis_pod_security_context, get_redis_container_security_context}
use frappe_operator.Bench.{
  Setup, bench_key, bench_labels, component_labels, requirements, service_spec,
}

abbrev pub redis_image_in : Option RedisConfig → String
redis_image_in none = "redis:7-alpine"
redis_image_in (some c) = if str_eq c.image "" then "redis:7-alpine" else c.image

abbrev redis_resources_in : Option RedisConfig → Option ResourceRequirements
redis_resources_in none = none
redis_resources_in (some c) = c.resources

abbrev pub get_redis_resources : Bench → ResourceRequirements
get_redis_resources bench =
    deref_or (redis_resources_in bench.spec.redis_config) (requirements "200m" "512Mi" "1" "2Gi")

-- The component's label is `redis-redis-cache` or `redis-redis-queue`.
unfoldable pub redis_service_spec : Bench → String → ServiceSpec
unfolding service_spec
redis_service_spec bench role =
    service_spec bench ("redis-" ++ role) "redis" (pos 6379) (bench_labels bench)

redis_service_missing : Bench → String → Got (Unit {0}) → M (Unit {0})
unfolding redis_service_spec
redis_service_missing bench role (got x) = pure tt
redis_service_missing bench role (failed e) =
    if not (is_not_found e)
    then raise e
    else create_owned (bench_key bench ("-" ++ role))
        (workload (bench_key bench ("-" ++ role)) (create_service (redis_service_spec bench role)))

unfoldable pub ensure_redis_service : Bench → String → M (Unit {0})
unfolding redis_service_missing
ensure_redis_service bench role =
    ask (λ (api : Api) h. api.exists h service_kind (bench_key bench ("-" ++ role)))
    >>= redis_service_missing bench role

abbrev pub redis_container : Setup → Bench → Container
redis_container setup bench =
    new_container_builder "redis" (redis_image_in bench.spec.redis_config)
    ▷ with_command ("redis-server" ∷ [])
    ▷ with_args
        ("--save" ∷ "" ∷ "--appendonly" ∷ "no" ∷ "--stop-writes-on-bgsave-error" ∷ "no" ∷ [])
    ▷ with_port "redis" (pos 6379)
    ▷ with_resources (get_redis_resources bench)
    ▷ with_security_context
        (some (get_redis_container_security_context setup.openshift bench.spec.security))

unfoldable pub redis_stateful_set_spec : Setup → Bench → String → StatefulSetSpec
redis_stateful_set_spec setup bench role =
    StatefulSetBuilder.new_stateful_set_builder
    ▷ StatefulSetBuilder.with_labels (bench_labels bench)
    ▷ StatefulSetBuilder.with_selector (component_labels bench ("redis-" ++ role))
    ▷ StatefulSetBuilder.with_service_name (bench.name ++ ("-" ++ role))
    ▷ StatefulSetBuilder.with_replicas (pos 1)
    ▷ StatefulSetBuilder.with_pod_security_context
        (get_redis_pod_security_context setup.openshift bench.spec.security)
    ▷ StatefulSetBuilder.with_container (redis_container setup bench)

redis_by : Setup → Bench → String → Got Deployed → M (Unit {0})
unfolding redis_stateful_set_spec
redis_by setup bench role (got d) =
    set_owner (bench_key bench ("-" ++ role))
    >> perform (λ e. e)
        (workload (bench_key bench ("-" ++ role))
          (update_stateful_set (redis_stateful_set_spec setup bench role)))
redis_by setup bench role (failed e) =
    if not (is_not_found e)
    then raise e
    else create_owned (bench_key bench ("-" ++ role)) (
        workload (bench_key bench ("-" ++ role))
          (create_stateful_set (redis_stateful_set_spec setup bench role)))

unfoldable pub ensure_redis_stateful_set : Setup → Bench → String → M (Unit {0})
unfolding redis_by
ensure_redis_stateful_set setup bench role =
    ask (λ (api : Api) h. api.get_deployed h stateful_set_kind (bench_key bench ("-" ++ role)))
    >>= redis_by setup bench role

unfoldable pub ensure_redis : Setup → Bench → M (Unit {0})
ensure_redis setup bench =
    ensure_redis_service bench "redis-cache"
    >> ensure_redis_service bench "redis-queue"
    >> ensure_redis_stateful_set setup bench "redis-cache"
    >> ensure_redis_stateful_set setup bench "redis-queue"

abbrev pub get_redis_address : Bench → String
get_redis_address bench = bench.name ++ "-redis-cache:6379"
