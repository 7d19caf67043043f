-- ===== src/Bench.antt =====
-- What a bench consists of: the helpers of controllers/frappebench_helpers.go, and what
-- controllers/frappebench_deployments.go does alike for each of its components. The children are
-- the components themselves, the init job, the status, the finalizer and the reconciler.
pub mod Components
pub mod Redis
pub mod Workers
pub mod Provisioning
pub mod Lifecycle
pub mod Status
pub mod Finalizer
pub mod Reconcile
pub mod Calls
pub mod Selectors
pub mod Settled
mod Examples
mod SettledExamples
use Prim.Native.String.{◌++◌}
use frappe_operator.Common.{
  ℕ, String, Bool, Option, none, some, List, [], ◌∷◌, str_eq, deref_or, not, if◌then◌else◌,
}
use frappe_operator.Common.Int.{ℤ, pos}
use frappe_operator.Pods.{
  ResourceRequirements, PodSecurityContext, SecurityContext, Container, DeploymentSpec, ServiceSpec,
  Deployed, create_deployment, update_deployment, create_service,
}
use frappe_operator.Types.{
  NamespacedName, ComponentReplicas, ComponentResources, RedisConfig, PodConfig, FpmRepository,
  BenchSpec, Bench,
}
use frappe_operator.Kube.{
  Err, Got, got, failed, Kind, deployment_kind, service_kind, workload, Api, M, pure, raise,
  nil_dereference, ◌>>=◌, ◌>>◌, ask, perform, is_not_found,
}
use frappe_operator.Images.{bench_image}
use frappe_operator.Resources.{◌▷◌, create_owned}
use frappe_operator.Resources.ServiceBuilder as ServiceBuilder
use frappe_operator.Resources.DeploymentBuilder as DeploymentBuilder
use frappe_operator.Security.{
  Environment, pod_security_context_for_bench, container_security_context_for_bench,
}
use frappe_operator.PodConfig.{Applied, apply_pod_config}

-- What the reconciler is started with and what is no code of the repository: whether the cluster is
-- OpenShift, the environment, the tries after a conflict, which texts are quantities, and the
-- repositories in a text of the operator's configuration, `none` where `json.Unmarshal` fails.
pub record Setup : Type 0 where
  pub openshift : Bool
  pub environment : Environment
  pub retries : ℕ
  pub is_quantity : String → Bool
  pub read_repositories : String → Option (List FpmRepository)

abbrev pub bench_key : Bench → String → NamespacedName
bench_key bench suffix = record { name = bench.name ++ suffix; namespace = bench.namespace }

abbrev pub bench_labels : Bench → List (String × String)
bench_labels bench = ("app", "frappe") ∷ ("bench", bench.name) ∷ []

abbrev pub component_labels : Bench → String → List (String × String)
component_labels bench component = ("component", component) ∷ bench_labels bench

-- `if bench.Spec.ComponentReplicas != nil { return f(bench.Spec.ComponentReplicas) }; return 1`
abbrev pub replicas_of : (ComponentReplicas → ℤ) → Option ComponentReplicas → ℤ
replicas_of f none = pos 1
replicas_of f (some r) = f r

abbrev pub resources_in :
    (ComponentResources → Option ResourceRequirements)
    → Option ComponentResources
    → Option ResourceRequirements
resources_in f none = none
resources_in f (some r) = f r

abbrev pub requirements : String → String → String → String → ResourceRequirements
requirements cpu memory cpu_limit memory_limit = record {
  requests = ("cpu", cpu) ∷ ("memory", memory) ∷ [];
  limits = ("cpu", cpu_limit) ∷ ("memory", memory_limit) ∷ [];
}

abbrev pub get_gunicorn_resources : BenchSpec → ResourceRequirements
get_gunicorn_resources s =
    deref_or (resources_in (λ r. r.gunicorn) s.component_resources)
      (requirements "500m" "1Gi" "2" "4Gi")

abbrev pub get_nginx_resources : BenchSpec → ResourceRequirements
get_nginx_resources s =
    deref_or (resources_in (λ r. r.nginx) s.component_resources)
      (requirements "200m" "256Mi" "1" "512Mi")

abbrev pub get_socketio_resources : BenchSpec → ResourceRequirements
get_socketio_resources s =
    deref_or (resources_in (λ r. r.socketio) s.component_resources)
      (requirements "200m" "512Mi" "1" "2Gi")

abbrev pub get_scheduler_resources : BenchSpec → ResourceRequirements
get_scheduler_resources s =
    deref_or (resources_in (λ r. r.scheduler) s.component_resources)
      (requirements "200m" "512Mi" "1" "2Gi")

abbrev pub container_context : Setup → Bench → SecurityContext
container_context setup bench =
    container_security_context_for_bench setup.environment setup.openshift bench.spec.security

abbrev pub pod_context : Setup → Bench → Got (List (String × String)) → PodSecurityContext
pod_context setup bench namespace =
    pod_security_context_for_bench setup.environment setup.openshift namespace bench.spec.security

-- The labels of a service of a component, its selector and its port.
pub service_spec : Bench → String → String → ℤ → List (String × String) → ServiceSpec
service_spec bench component port_name port labels =
    ServiceBuilder.new_service_builder
    ▷ ServiceBuilder.with_labels labels
    ▷ ServiceBuilder.with_selector (component_labels bench component)
    ▷ ServiceBuilder.with_port port_name port port

pub deployment_spec : Bench → String → ℤ → Applied → PodSecurityContext → Container → DeploymentSpec
deployment_spec bench component replicas applied context container =
    DeploymentBuilder.new_deployment_builder
    ▷ DeploymentBuilder.with_labels applied.labels
    ▷ DeploymentBuilder.with_extra_pod_labels applied.labels
    ▷ DeploymentBuilder.with_selector (component_labels bench component)
    ▷ DeploymentBuilder.with_replicas replicas
    ▷ DeploymentBuilder.with_node_selector applied.node_selector
    ▷ DeploymentBuilder.with_affinity applied.affinity
    ▷ DeploymentBuilder.with_tolerations applied.tolerations
    ▷ DeploymentBuilder.with_pod_security_context context
    ▷ DeploymentBuilder.with_container container
    ▷ DeploymentBuilder.with_pvc_volume "sites" (bench.name ++ "-sites")

abbrev pub with_pod_config : Bench → Option PodConfig → Bench
with_pod_config bench c = record bench { spec = record bench.spec { pod_config = c } }

-- The bench's pod configuration, applied to its labels, and the bench as the call leaves it.
abbrev pub applied_to : Bench → Applied × Bench
applied_to bench =
    let r = apply_pod_config bench.spec.pod_config (bench_labels bench) in
    (r.0, with_pod_config bench r.1)

service_missing : Bench → String → String → ℤ → Got (Unit {0}) → M Bench
unfolding service_spec
service_missing bench component port_name port (got x) = pure bench
service_missing bench component port_name port (failed e) =
    if not (is_not_found e)
    then raise e
    else (create_owned (bench_key bench ("-" ++ component)) (
          workload (bench_key bench ("-" ++ component)) (
            create_service
              (service_spec bench component port_name port (applied_to bench).0.labels)))
        >> pure (applied_to bench).1)

-- `ensureGunicornService` and its likes.
pub ensure_service : Bench → String → String → ℤ → M Bench
unfolding service_missing
ensure_service bench component port_name port =
    ask (λ (api : Api) h. api.exists h service_kind (bench_key bench ("-" ++ component)))
    >>= service_missing bench component port_name port

-- `deploy.Spec.Template.Spec.Containers[0]` panics where there is no container.
image_by : NamespacedName → Deployed → String → Option String → M (Unit {0})
image_by key d image none = nil_dereference
image_by key d image (some old) =
    if str_eq old image
    then pure tt
    else perform (λ e. e) (workload key (update_deployment (record d { image = some image })))

pub update_image : NamespacedName → Deployed → String → M (Unit {0})
unfolding image_by
update_image key d image = image_by key d image d.image

-- Creates a deployment with the container that `make` builds for the image.
create_component : Setup → Bench → String → ℤ → (String → Container) → M Bench
unfolding deployment_spec
create_component setup bench component replicas make = bench_image bench >>= λ image.
    ask (λ (api : Api) h. api.namespace_annotations h bench.namespace) >>= λ namespace.
    create_owned (bench_key bench ("-" ++ component)) (
      workload (bench_key bench ("-" ++ component)) (
        create_deployment (
          deployment_spec bench component replicas (applied_to bench).0
            (pod_context setup bench namespace) (make image))))
    >> pure (applied_to bench).1

deployment_missing : Setup → Bench → String → ℤ → (String → Container) → Got Deployed → M Bench
unfolding create_component update_image
deployment_missing setup bench component replicas make (got d) = bench_image bench >>= λ image.
    update_image (bench_key bench ("-" ++ component)) d image >> pure bench
deployment_missing setup bench component replicas make (failed e) =
    if not (is_not_found e) then raise e else create_component setup bench component replicas make

-- `ensureGunicornDeployment` and its likes.
pub ensure_deployment : Setup → Bench → String → ℤ → (String → Container) → M Bench
unfolding deployment_missing
ensure_deployment setup bench component replicas make =
    ask (λ (api : Api) h. api.get_deployed h deployment_kind (bench_key bench ("-" ++ component)))
    >>= deployment_missing setup bench component replicas make
