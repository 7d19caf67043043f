-- ===== src/Bench/Redis/Writes.antt =====
-- What the Redis servers of a bench write.
use Prim.Native.String.{◌++◌}
use frappe_operator.Common.{String, not}
use frappe_operator.Pods.{Deployed}
use frappe_operator.Types.{Bench}
use frappe_operator.Kube.{Got, got, failed, Api, raise, is_not_found}
use frappe_operator.Kube.Traces.{Emits-if, Emits-raise, Emits-pure, emit_rules}
use frappe_operator.Resources.Creation.{create_owned-Emits}
use frappe_operator.Bench.{Setup}
use frappe_operator.Bench.Redis.{
  redis_service_missing, ensure_redis_service, redis_by, ensure_redis_stateful_set, ensure_redis,
}
use frappe_operator.Bench.Calls.{IsSame, IsComponent, component_key}
use frappe_operator.Bench.Provisioning.{Allowed}

module _ (api : Api) (bench b : Bench) (s : IsSame bench b) (setup : Setup) where
  redis_service_missing-Allowed :
      (role : String) (g : Got (Unit {0}))
      → IsComponent ("-" ++ role)
      → Allowed api bench (redis_service_missing b role g)
  unfolding redis_service_missing
  redis_service_missing-Allowed role (got x) m = Emits-pure tt
  redis_service_missing-Allowed role (failed e) m =
      Emits-if (not (is_not_found e)) (raise e) _ (Emits-raise e)
        (create_owned-Emits _ _ (component_key bench b ("-" ++ role) s m))

  redis_service-Allowed :
      (role : String) → IsComponent ("-" ++ role) → Allowed api bench (ensure_redis_service b role)
  unfolding ensure_redis_service
  redis_service-Allowed role m =
      search (emit_rules, λ (g : Got (Unit {0})). redis_service_missing-Allowed role g m)

  redis_by-Allowed :
      (role : String) (g : Got Deployed)
      → IsComponent ("-" ++ role)
      → Allowed api bench (redis_by setup b role g)
  unfolding redis_by
  redis_by-Allowed role (got d) m =
      let own = component_key bench b ("-" ++ role) s m in search (emit_rules, own) depth 12
  redis_by-Allowed role (failed e) m =
      Emits-if (not (is_not_found e)) (raise e) _ (Emits-raise e)
        (create_owned-Emits _ _ (component_key bench b ("-" ++ role) s m))

  redis_stateful_set-Allowed :
      (role : String)
      → IsComponent ("-" ++ role)
      → Allowed api bench (ensure_redis_stateful_set setup b role)
  unfolding ensure_redis_stateful_set
  redis_stateful_set-Allowed role m =
      search (emit_rules, λ (g : Got Deployed). redis_by-Allowed role g m)

  pub ensure_redis-Allowed : Allowed api bench (ensure_redis setup b)
  unfolding ensure_redis
  ensure_redis-Allowed = search (emit_rules, redis_service-Allowed, redis_stateful_set-Allowed)
