-- ===== src/Types.antt =====
-- The resources of api/v1alpha1 (shared_types.go, frappesite_types.go, frappebench_types.go), with
-- the fields that the modelled code reads or writes. A Go pointer is an option.
mod Names
mod Backups
pub use Names.*
pub use Backups.*
use frappe_operator.Common.{ℕ, String, Bool, Option, List}
use frappe_operator.Common.Int.{ℤ}
use frappe_operator.Pods.{Affinity, PodSecurityContext, SecurityContext}
pub use frappe_operator.Pods.{ResourceRequirements}

-- `storage_size` is a quantity in its canonical text.
pub record DatabaseConfig : Type 0 where
  pub provider : String
  pub mode : String
  pub mariadb_ref : Option NamespacedName
  pub postgres_ref : Option NamespacedName
  pub storage_size : Option String
  pub resources : Option ResourceRequirements
  pub host : String
  pub port : String
  pub image : String
  pub connection_secret_ref : Option NamespacedName

pub record DomainConfig : Type 0 where
  pub suffix : String
  pub auto_detect : Option Bool

pub record ImageConfig : Type 0 where
  pub repository : String
  pub tag : String

pub record ComponentReplicas : Type 0 where
  pub gunicorn : ℤ
  pub nginx : ℤ
  pub socketio : ℤ
  pub worker_default : ℤ
  pub worker_long : ℤ
  pub worker_short : ℤ

pub record WorkerAutoscaling : Type 0 where
  pub enabled : Option Bool
  pub static_replicas : Option ℤ
  pub min_replicas : Option ℤ
  pub max_replicas : Option ℤ
  pub queue_length : Option ℤ
  pub cooldown_period : Option ℤ
  pub polling_interval : Option ℤ

pub record WorkerAutoscalingConfig : Type 0 where
  pub short : Option WorkerAutoscaling
  pub long : Option WorkerAutoscaling
  pub default : Option WorkerAutoscaling

pub record TlsConfig : Type 0 where
  pub enabled : Bool
  pub secret_name : String
  pub issuer : String

pub record IngressConfig : Type 0 where
  pub enabled : Option Bool
  pub annotations : List (String × String)

pub record RouteConfig : Type 0 where
  pub enabled : Option Bool
  pub tls_termination : String
  pub annotations : List (String × String)

pub record SiteSpec : Type 0 where
  pub bench_ref : Option NamespacedName
  pub site_name : String
  pub admin_password_secret_ref : Option NamespacedName
  pub db_config : DatabaseConfig
  pub domain : String
  pub tls : TlsConfig
  pub ingress_class_name : String
  pub ingress : Option IngressConfig
  pub route_config : Option RouteConfig
  pub apps : List String

-- The texts of `status.appInstallationStatus`, with what they are made of.
pub data AppStatus : Type 0 where
  unset frappe_only : AppStatus
  completed installing : ℕ → AppStatus
  install_failed : String → AppStatus

pub record SiteStatus : Type 0 where
  pub phase : String
  pub database_name : String
  pub database_credentials_secret : String
  pub site_url : String
  pub resolved_domain : String
  pub domain_source : String
  pub installed_apps : List String
  pub app_installation_status : AppStatus
  pub observed_generation : ℕ

-- `annotations` are the object's, `deleting` says whether it has a deletion timestamp.
pub record Site : Type 0 where
  pub name : String
  pub namespace : String
  pub generation : ℕ
  pub deleting : Bool
  pub finalizers : List String
  pub annotations : List (String × String)
  pub spec : SiteSpec
  pub status : SiteStatus

pub record AppSource : Type 0 where
  pub name : String
  pub source : String
  pub version : String
  pub org : String
  pub git_url : String
  pub git_branch : String

pub record ComponentResources : Type 0 where
  pub gunicorn : Option ResourceRequirements
  pub nginx : Option ResourceRequirements
  pub scheduler : Option ResourceRequirements
  pub socketio : Option ResourceRequirements
  pub worker_default : Option ResourceRequirements
  pub worker_long : Option ResourceRequirements
  pub worker_short : Option ResourceRequirements

pub record RedisConfig : Type 0 where
  pub image : String
  pub resources : Option ResourceRequirements

pub record SecurityConfig : Type 0 where
  pub pod_security_context : Option PodSecurityContext
  pub security_context : Option SecurityContext

pub record GeoTagConfig : Type 0 where
  pub region : String
  pub zone : String

pub record PodConfig : Type 0 where
  pub labels : List (String × String)
  pub node_selector : List (String × String)
  pub affinity : Option Affinity
  pub tolerations : List String
  pub geo_tag : Option GeoTagConfig

pub record GitConfig : Type 0 where
  pub enabled : Option Bool

pub record FpmRepository : Type 0 where
  pub name : String
  pub url : String
  pub priority : ℤ

pub record FpmConfig : Type 0 where
  pub repositories : List FpmRepository

pub record BenchSpec : Type 0 where
  pub frappe_version : String
  pub apps : List AppSource
  pub apps_json : String
  pub image_config : Option ImageConfig
  pub component_replicas : Option ComponentReplicas
  pub storage_class_name : String
  pub storage_size : String
  pub db_config : Option DatabaseConfig
  pub domain_config : Option DomainConfig
  pub worker_autoscaling : Option WorkerAutoscalingConfig
  pub component_resources : Option ComponentResources
  pub redis_config : Option RedisConfig
  pub security : Option SecurityConfig
  pub pod_config : Option PodConfig
  pub git_config : Option GitConfig
  pub fpm_config : Option FpmConfig

pub record WorkerScalingStatus : Type 0 where
  pub mode : String
  pub current_replicas : ℤ
  pub desired_replicas : ℤ
  pub keda_managed : Bool

-- Less the conditions. Of the entries of `worker_scaling` with one key the first counts.
pub record BenchStatus : Type 0 where
  pub phase : String
  pub installed_apps : List String
  pub git_enabled : Bool
  pub fpm_repositories : List String
  pub observed_generation : ℕ
  pub worker_scaling : List (String × WorkerScalingStatus)

pub record Bench : Type 0 where
  pub name : String
  pub namespace : String
  pub generation : ℕ
  pub deleting : Bool
  pub finalizers : List String
  pub annotations : List (String × String)
  pub spec : BenchSpec
  pub status : BenchStatus
