-- ===== src/Bench/Workers/Writes.antt =====
-- What the workers of a bench write.
use frappe_operator.Common.{refl, String, Bool, not, Option, none, some}
use frappe_operator.Common.Int.{ℤ}
use frappe_operator.Pods.{Deployed, ScaledSpec, ScaledObject}
use frappe_operator.Types.{WorkerAutoscaling, Bench}
use frappe_operator.Kube.{Got, got, failed, deployment_kind, Api, pure, raise, is_not_found}
use frappe_operator.Kube.Traces.{
  Emits-if, Emits-raise, Emits-pure, Emits-nil_dereference, Emits-try, Emits-bind, emit_rules,
}
use frappe_operator.Kube.Ensures.{
  Anything, Ensures-pure, Ensures-raise, Ensures-bind, Ensures-ask, Ensures-if, Ensures-Emits,
  Emits-perform,
}
use frappe_operator.Workers.{WorkerType, short_worker, long_worker, default_worker}
use frappe_operator.Bench.{Setup, bench_key}
use frappe_operator.Bench.Workers.{
  worker_suffix, is_keda_available, with_replicas, update_if, update_by, update_worker,
  create_worker, worker_by, ensure_worker_deployment, delete_found, delete_scaled_object_if_exists,
  put_scaled_object, build_scaled_object, ensure_scaled_object, ensure_worker, ensure_workers,
}
use frappe_operator.Bench.Calls.{IsSame, IsComponent, ComponentKey, component_key}
use frappe_operator.Bench.Provisioning.{
  Allowed, Same, configured-IsSame, then-Same, created-Allowed, with_image-Same,
}

worker_suffix-IsComponent : (t : WorkerType) → IsComponent (worker_suffix t)
worker_suffix-IsComponent short_worker = refl
worker_suffix-IsComponent long_worker = refl
worker_suffix-IsComponent default_worker = refl

module _ (api : Api) (bench b : Bench) (s : IsSame bench b) (t : WorkerType) where
  own_key : ComponentKey bench (bench_key b (worker_suffix t))
  own_key = component_key bench b (worker_suffix t) s (worker_suffix-IsComponent t)

  with_replicas-Allowed :
      (managed : Bool) (n : ℤ) (o : Option ℤ) (r : Deployed × Bool)
      → Allowed api bench (with_replicas managed n o r)
  unfolding with_replicas
  with_replicas-Allowed managed n none (d, changed) = search emit_rules
  with_replicas-Allowed managed n (some old) (d, changed) = search emit_rules

  update_if-Allowed : (r : Deployed × Bool) → Allowed api bench (update_if b t r)
  unfolding update_if
  update_if-Allowed (d, changed) =
      Emits-if changed _ (pure tt) (Emits-perform (λ e. e) _ own_key) (Emits-pure tt)

  update_by-Allowed :
      (managed : Bool) (n : ℤ) (d : Deployed) (image : String) (o : Option String)
      → Allowed api bench (update_by b t managed n d image o)
  unfolding update_by
  update_by-Allowed managed n d image none = Emits-nil_dereference
  update_by-Allowed managed n d image (some old) =
      Emits-bind _ (update_if b t) (with_replicas-Allowed managed n d.replicas _) update_if-Allowed

  update_worker-Allowed :
      (managed : Bool) (n : ℤ) (d : Deployed) (image : String)
      → Allowed api bench (update_worker b t managed n d image)
  unfolding update_worker
  update_worker-Allowed managed n d image = update_by-Allowed managed n d image d.image

  create_worker-Same :
      (setup : Setup) (managed : Bool) (n : ℤ) → Same api bench (create_worker setup b t managed n)
  unfolding create_worker
  create_worker-Same setup managed n = with_image-Same api bench b s _ (λ i.
      Ensures-ask (IsSame bench) _ _ (λ h.
        then-Same api bench _ _ (created-Allowed api bench b s _ _ (worker_suffix-IsComponent t))
          (configured-IsSame api bench b _ s)))

  worker_by-Same :
      (setup : Setup) (managed : Bool) (n : ℤ) (g : Got Deployed)
      → Same api bench (worker_by setup b t managed n g)
  unfolding worker_by
  worker_by-Same setup managed n (got d) =
      with_image-Same api bench b s _
        (λ i. then-Same api bench _ b (update_worker-Allowed managed n d i) s)
  worker_by-Same setup managed n (failed e) =
      Ensures-if (IsSame bench) (not (is_not_found e)) (raise e) _
        (λ k. Ensures-raise (IsSame bench) e) (λ k. create_worker-Same setup managed n)

  worker_deployment-Same :
      (setup : Setup) (managed : Bool) (n : ℤ)
      → Same api bench (ensure_worker_deployment setup b t managed n)
  unfolding ensure_worker_deployment
  worker_deployment-Same setup managed n =
      Ensures-ask (IsSame bench) _ (worker_by setup b t managed n) (λ h.
        worker_by-Same setup managed n
          (api.get_deployed h deployment_kind (bench_key b (worker_suffix t))))

  delete_found-Allowed : (g : Got (Unit {0})) → Allowed api bench (delete_found b t g)
  unfolding delete_found
  delete_found-Allowed (got x) = Emits-perform (λ e. e) _ own_key
  delete_found-Allowed (failed e) = search emit_rules

  delete_scaled-Allowed : Allowed api bench (delete_scaled_object_if_exists b t)
  unfolding delete_scaled_object_if_exists
  delete_scaled-Allowed = search (emit_rules, delete_found-Allowed)

  put_scaled-Allowed :
      (o : ScaledObject) (g : Got (Unit {0})) → Allowed api bench (put_scaled_object b t o g)
  unfolding put_scaled_object
  put_scaled-Allowed o (got x) = Emits-perform (λ e. e) _ own_key
  put_scaled-Allowed o (failed e) =
      Emits-if (is_not_found e) _ (raise e) (Emits-perform (λ e'. e') _ own_key) (Emits-raise e)

  build_scaled-Allowed : (o : Option ScaledSpec) → Allowed api bench (build_scaled_object b t o)
  unfolding build_scaled_object
  build_scaled-Allowed none = Emits-nil_dereference
  build_scaled-Allowed (some numbers) = search (emit_rules, put_scaled-Allowed) depth 12

  scaled_object-Allowed : (c : WorkerAutoscaling) → Allowed api bench (ensure_scaled_object b t c)
  unfolding ensure_scaled_object is_keda_available
  scaled_object-Allowed c =
      search (emit_rules, delete_scaled-Allowed, build_scaled-Allowed) depth 12

module _ (api : Api) (bench : Bench) (setup : Setup) (available : Bool) where
  ensure_worker-Same :
      (t : WorkerType) (b : Bench)
      → IsSame bench b
      → Same api bench (ensure_worker setup available t b)
  unfolding ensure_worker
  ensure_worker-Same t b s =
      Ensures-bind (IsSame bench) (IsSame bench) _ _
        (worker_deployment-Same api bench b s t setup _ _)
        (λ c k.
          Ensures-bind Anything (IsSame bench) _ _
            (Ensures-Emits (Emits-try _ (scaled_object-Allowed api bench c k t _)))
            (λ r q. Ensures-pure (IsSame bench) c k))

pub ensure_workers-Same :
    (api : Api) (bench : Bench) (setup : Setup) (b : Bench)
    → IsSame bench b
    → Same api bench (ensure_workers setup b)
unfolding ensure_workers is_keda_available
ensure_workers-Same api bench setup b s = Ensures-ask (IsSame bench) _ _ (λ h.
    Ensures-bind (IsSame bench) (IsSame bench) _ (ensure_worker setup _ short_worker)
      (Ensures-bind (IsSame bench) (IsSame bench) _ (ensure_worker setup _ long_worker)
        (ensure_worker-Same api bench setup _ default_worker b s)
        (ensure_worker-Same api bench setup _ long_worker))
      (ensure_worker-Same api bench setup _ short_worker))
