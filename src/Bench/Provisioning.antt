-- ===== src/Bench/Provisioning.antt =====
-- What the steps of the provisioning write, and that each leaves the bench the same.
use Prim.Native.String.{◌++◌}
use frappe_operator.Common.{String, not, Option, none, some, str_eq}
use frappe_operator.Common.Int.{ℤ}
use frappe_operator.Pods.{Container, Deployed, Workload}
use frappe_operator.Types.{PodConfig, Bench}
use frappe_operator.Kube.{
  Got, got, failed, service_kind, deployment_kind, workload, Api, M, pure, raise, ◌>>=◌, ◌>>◌,
  is_not_found,
}
use frappe_operator.Kube.Traces.{Emits, Emits-nil_dereference, Emits-if, Emits-pure, emit_rules}
use frappe_operator.Kube.Ensures.{
  Ensures, Anything, Ensures-pure, Ensures-raise, Ensures-bind, Ensures-ask, Ensures-if,
  Ensures-Emits, Emits-perform,
}
use frappe_operator.Images.{bench_image}
use frappe_operator.Resources.{create_owned}
use frappe_operator.Resources.Creation.{create_owned-Emits}
use frappe_operator.Bench.{
  Setup, bench_key, with_pod_config, service_missing, ensure_service, image_by, update_image,
  create_component, deployment_missing, ensure_deployment,
}
use frappe_operator.Bench.Calls.{BenchCall, IsSame, IsComponent, component_key}

module _ (api : Api) (bench : Bench) where
  -- An action that writes as the bench may.
  abbrev pub Allowed : {A : Type 0} → M A → Type 0
  Allowed m = Emits (BenchCall api bench) m

  -- It returns a bench that is the same, too.
  abbrev pub Same : M Bench → Type 0
  Same m = Ensures api (BenchCall api bench) (IsSame bench) m

  pub configured-IsSame :
      (b : Bench) (c : Option PodConfig) → IsSame bench b → IsSame bench (with_pod_config b c)
  configured-IsSame b c s = record { name = s.name; namespace = s.namespace; phase = s.phase }

  -- An action whose result is not used, and then a bench.
  pub then-Same : (m : M (Unit {0})) (b : Bench) → Allowed m → IsSame bench b → Same (m >> pure b)
  then-Same m b k s =
      Ensures-bind Anything (IsSame bench) m (λ u. pure b) (Ensures-Emits k)
        (λ u q. Ensures-pure (IsSame bench) b s)

  module _ (b : Bench) (s : IsSame bench b) where
    pub created-Allowed :
        (suffix : String) (w : Workload)
        → IsComponent suffix
        → Allowed (create_owned (bench_key b suffix) (workload (bench_key b suffix) w))
    created-Allowed suffix w m = create_owned-Emits _ _ (component_key bench b suffix s m)

    service_missing-Same :
        (component port_name : String) (port : ℤ) (g : Got (Unit {0}))
        → IsComponent ("-" ++ component)
        → Same (service_missing b component port_name port g)
    unfolding service_missing
    service_missing-Same component port_name port (got x) m = Ensures-pure (IsSame bench) b s
    service_missing-Same component port_name port (failed e) m =
        Ensures-if (IsSame bench) (not (is_not_found e)) (raise e) _
          (λ t. Ensures-raise (IsSame bench) e)
          (λ t. then-Same _ _ (created-Allowed _ _ m) (configured-IsSame b _ s))

    pub ensure_service-Same :
        (component port_name : String) (port : ℤ)
        → IsComponent ("-" ++ component)
        → Same (ensure_service b component port_name port)
    unfolding ensure_service
    ensure_service-Same component port_name port m =
        Ensures-ask (IsSame bench) _ (service_missing b component port_name port) (λ h.
          service_missing-Same component port_name port
            (api.exists h service_kind (bench_key b ("-" ++ component))) m)

    image_by-Allowed :
        (suffix image : String) (d : Deployed) (o : Option String)
        → IsComponent suffix
        → Allowed (image_by (bench_key b suffix) d image o)
    unfolding image_by
    image_by-Allowed suffix image d none m = Emits-nil_dereference
    image_by-Allowed suffix image d (some old) m =
        Emits-if (str_eq old image) (pure tt) _ (Emits-pure tt)
          (Emits-perform (λ e. e) _ (component_key bench b suffix s m))

    pub update_image-Allowed :
        (suffix : String) (d : Deployed) (image : String)
        → IsComponent suffix
        → Allowed (update_image (bench_key b suffix) d image)
    unfolding update_image
    update_image-Allowed suffix d image m = image_by-Allowed suffix image d d.image m

    -- The image of the bench is only read.
    pub with_image-Same :
        (f : String → M Bench) → ((i : String) → Same (f i)) → Same (bench_image b >>= f)
    unfolding bench_image
    with_image-Same f k =
        Ensures-bind Anything (IsSame bench) (bench_image b) f (Ensures-Emits (search emit_rules))
          (λ i q. k i)

    create_component-Same :
        (setup : Setup) (component : String) (replicas : ℤ) (make : String → Container)
        → IsComponent ("-" ++ component)
        → Same (create_component setup b component replicas make)
    unfolding create_component
    create_component-Same setup component replicas make m = with_image-Same _ (λ i.
        Ensures-ask (IsSame bench) _ _
          (λ h. then-Same _ _ (created-Allowed _ _ m) (configured-IsSame b _ s)))

    deployment_missing-Same :
        (setup : Setup) (component : String) (replicas : ℤ) (make : String → Container)
        (g : Got Deployed)
        → IsComponent ("-" ++ component)
        → Same (deployment_missing setup b component replicas make g)
    unfolding deployment_missing
    deployment_missing-Same setup component replicas make (got d) m =
        with_image-Same _ (λ i. then-Same _ b (update_image-Allowed _ d i m) s)
    deployment_missing-Same setup component replicas make (failed e) m =
        Ensures-if (IsSame bench) (not (is_not_found e)) (raise e) _
          (λ t. Ensures-raise (IsSame bench) e)
          (λ t. create_component-Same setup component replicas make m)

    pub ensure_deployment-Same :
        (setup : Setup) (component : String) (replicas : ℤ) (make : String → Container)
        → IsComponent ("-" ++ component)
        → Same (ensure_deployment setup b component replicas make)
    unfolding ensure_deployment
    ensure_deployment-Same setup component replicas make m =
        Ensures-ask (IsSame bench) _ (deployment_missing setup b component replicas make) (λ h.
          deployment_missing-Same setup component replicas make
            (api.get_deployed h deployment_kind (bench_key b ("-" ++ component))) m)
