-- ===== src/Bench/Settled.antt =====
-- A bench whose init job has succeeded and whose objects are all there as they should be.
use Prim.Native.String.{◌++◌}
use frappe_operator.Common.{
  ◌≡◌, refl, String, true, false, some, Bool-cases, inl, inr, arith, eq_refl,
}
use frappe_operator.Common.Int.{ℤ, pos, negsuc}
use frappe_operator.Pods.{Container, Deployed}
use frappe_operator.Types.{NamespacedName, WorkerAutoscaling, Bench}
use frappe_operator.Kube.{
  Err, got, failed, service_kind, deployment_kind, scaled_object_kind, History, Api, ◌>>=◌,
  is_not_found,
}
use frappe_operator.Kube.Runs.{Runs, bind-Runs}
use frappe_operator.Images.{bench_image}
use frappe_operator.Workers.{
  WorkerType, short_worker, long_worker, default_worker, worker_config, is_enabled,
  get_worker_replica_count,
}
use frappe_operator.Bench.{Setup, bench_key, ensure_service, ensure_deployment}
use frappe_operator.Bench.Components.{
  ensure_gunicorn, ensure_nginx, ensure_socketio, ensure_scheduler,
}
use frappe_operator.Bench.Workers.{
  worker_suffix, same_int, is_keda_available, ensure_worker_deployment,
  delete_scaled_object_if_exists, ensure_scaled_object, ensure_worker, ensure_workers,
}

-- What the client answers: the services are there, the deployments are there with the image of the
-- bench, those of the workers with the replicas that it asks for, and KEDA is not installed.
pub record HasWorkloads (api : Api) (bench : Bench) : Type 0 where
  pub services : (h : History) (k : NamespacedName) → api.exists h service_kind k ≡ got tt
  pub image : String
  pub chosen : (h : History) → Runs api (bench_image bench) h image h
  pub deployed : String → Deployed
  pub read :
      (h : History) (suffix : String)
      → api.get_deployed h deployment_kind (bench_key bench suffix) ≡ got (deployed suffix)
  pub current : (suffix : String) → (deployed suffix).image ≡ some image
  pub scaled :
      (t : WorkerType)
      → (deployed (worker_suffix t)).replicas
        ≡ some (get_worker_replica_count (worker_config bench.spec t) false)
  pub absent : Err
  pub is_absent : is_not_found absent ≡ true
  pub unlisted : (h : History) → api.list_scaled_objects h ≡ failed absent
  pub unscaled :
      (h : History) (k : NamespacedName) → api.exists h scaled_object_kind k ≡ failed absent

same_int_refl : (n : ℤ) → same_int n n ≡ true
same_int_refl (pos n) = ground arith
same_int_refl (negsuc n) = ground arith

module _ (api : Api) (setup : Setup) (bench : Bench) (w : HasWorkloads api bench)
    (h : History) where
  ensure_service-Runs :
      (component port_name : String) (port : ℤ)
      → Runs api (ensure_service bench component port_name port) h bench h
  unfolding ensure_service ◌>>=◌
  ensure_service-Runs component port_name port =
      rw (w.services h (bench_key bench ("-" ++ component))) refl

  ensure_deployment-Runs :
      (component : String) (replicas : ℤ) (make : String → Container)
      → Runs api (ensure_deployment setup bench component replicas make) h bench h
  unfolding ensure_deployment ◌>>=◌
  ensure_deployment-Runs component replicas make =
      rw (w.read h ("-" ++ component), w.chosen h, w.current ("-" ++ component), eq_refl w.image)
        refl

  pub ensure_gunicorn-Runs : Runs api (ensure_gunicorn setup bench) h bench h
  unfolding ensure_gunicorn
  ensure_gunicorn-Runs =
      bind-Runs api _ _ h h bench _ (ensure_service-Runs "gunicorn" "http" (pos 8000))
        (ensure_deployment-Runs "gunicorn" _ _)

  pub ensure_nginx-Runs : Runs api (ensure_nginx setup bench) h bench h
  unfolding ensure_nginx
  ensure_nginx-Runs =
      bind-Runs api _ _ h h bench _ (ensure_service-Runs "nginx" "http" (pos 8080))
        (ensure_deployment-Runs "nginx" _ _)

  pub ensure_socketio-Runs : Runs api (ensure_socketio setup bench) h bench h
  unfolding ensure_socketio
  ensure_socketio-Runs =
      bind-Runs api _ _ h h bench _ (ensure_service-Runs "socketio" "socketio" (pos 9000))
        (ensure_deployment-Runs "socketio" _ _)

  pub ensure_scheduler-Runs : Runs api (ensure_scheduler setup bench) h bench h
  unfolding ensure_scheduler
  ensure_scheduler-Runs = ensure_deployment-Runs "scheduler" (pos 1) _

  keda-Runs : Runs api is_keda_available h false h
  unfolding is_keda_available ◌>>=◌
  keda-Runs = rw (w.unlisted h, w.is_absent) refl

  ensure_scaled_object-Runs :
      (t : WorkerType) (config : WorkerAutoscaling)
      → Runs api (ensure_scaled_object bench t config) h tt h
  unfolding ensure_scaled_object delete_scaled_object_if_exists ◌>>=◌
  ensure_scaled_object-Runs t config = elim (Bool-cases (is_enabled config)) [
    | inl y ↦ rw (y, keda-Runs) refl
    | inr n ↦ rw (n, w.unscaled h (bench_key bench (worker_suffix t)), w.is_absent) refl
  ]

  ensure_worker_deployment-Runs :
      (t : WorkerType)
      → Runs api
          (ensure_worker_deployment setup bench t false
            (get_worker_replica_count (worker_config bench.spec t) false))
          h
          bench
          h
  unfolding ensure_worker_deployment ◌>>=◌
  ensure_worker_deployment-Runs t =
      rw
        (
          w.read h (worker_suffix t),
          w.chosen h,
          w.current (worker_suffix t),
          eq_refl w.image,
          w.scaled t,
          same_int_refl (get_worker_replica_count (worker_config bench.spec t) false),
        )
        refl

  ensure_worker-Runs : (t : WorkerType) → Runs api (ensure_worker setup false t bench) h bench h
  unfolding ensure_worker ◌>>=◌
  ensure_worker-Runs t =
      rw (ensure_worker_deployment-Runs t, ensure_scaled_object-Runs t (worker_config bench.spec t))
        refl

  pub ensure_workers-Runs : Runs api (ensure_workers setup bench) h bench h
  unfolding ensure_workers
  ensure_workers-Runs = bind-Runs api _ _ h h false _ keda-Runs (
      bind-Runs api _ _ h h bench _
        (bind-Runs api _ _ h h bench _ (ensure_worker-Runs default_worker)
          (ensure_worker-Runs long_worker))
        (ensure_worker-Runs short_worker))
