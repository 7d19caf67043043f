-- ===== src/Bench/Redis/Settled.antt =====
-- The Redis servers of a bench that has them.
use Prim.Native.String.{◌++◌}
use frappe_operator.Common.{◌≡◌, refl, none, String, ◌∷◌}
use frappe_operator.Pods.{Deployed, update_stateful_set}
use frappe_operator.Types.{NamespacedName, Bench}
use frappe_operator.Kube.{got, Call, service_kind, stateful_set_kind, workload, History, Api, ◌>>=◌}
use frappe_operator.Kube.Runs.{Runs, bind-Runs}
use frappe_operator.Bench.{Setup, bench_key}
use frappe_operator.Bench.Redis.{
  ensure_redis_service, redis_stateful_set_spec, ensure_redis_stateful_set, ensure_redis,
}

-- The update of a Redis server, which is written whether or not it changes anything.
abbrev pub redis_update : Setup → Bench → String → Call
redis_update setup bench role =
    workload (bench_key bench ("-" ++ role))
      (update_stateful_set (redis_stateful_set_spec setup bench role))

module _ (api : Api) (setup : Setup) (bench : Bench)
    (services : (h : History) (k : NamespacedName) → api.exists h service_kind k ≡ got tt)
    (server : Deployed)
    (servers : (h : History) (k : NamespacedName)
      → api.get_deployed h stateful_set_kind k ≡ got server)
    (owned : (k : NamespacedName) → api.set_controller_reference k ≡ none)
    (accepts : (h : History) (c : Call) → api.write h c ≡ none) where
  service-Runs : (role : String) (h : History) → Runs api (ensure_redis_service bench role) h tt h
  unfolding ensure_redis_service ◌>>=◌
  service-Runs role h = rw (services h (bench_key bench ("-" ++ role))) refl

  stateful_set-Runs :
      (role : String) (h : History)
      → Runs api
          (ensure_redis_stateful_set setup bench role)
          h
          tt
          (redis_update setup bench role ∷ h)
  unfolding ensure_redis_stateful_set ◌>>=◌
  stateful_set-Runs role h =
      rw
        (
          servers h (bench_key bench ("-" ++ role)),
          owned (bench_key bench ("-" ++ role)),
          accepts h (redis_update setup bench role),
        )
        refl

  pub ensure_redis-Runs :
      (h : History)
      → Runs api
          (ensure_redis setup bench)
          h
          tt
          (redis_update setup bench "redis-queue" ∷ redis_update setup bench "redis-cache" ∷ h)
  unfolding ensure_redis
  ensure_redis-Runs h =
      bind-Runs api _ _ h _ tt _
        (bind-Runs api _ _ h h tt _
          (bind-Runs api _ _ h h tt _ (service-Runs "redis-cache" h) (service-Runs "redis-queue" h))
          (stateful_set-Runs "redis-cache" h))
        (stateful_set-Runs "redis-queue" _)
