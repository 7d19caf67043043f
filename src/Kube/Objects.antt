-- ===== src/Kube/Objects.antt =====
-- What the code reads and writes of the objects of Kubernetes and of its operators.
use frappe_operator.Common.{ℕ, String, Bool, Option, List}
use frappe_operator.Pods.{EnvVar}

pub record Secret : Type 0 where
  pub name : String
  pub contents : List (String × String)

-- A Job's status.
pub record Job : Type 0 where
  pub succeeded : ℕ
  pub failures : ℕ

-- What the code reads of a MariaDB resource: `spec.rootPasswordSecretKeyRef`, `""` and `none` where
-- a field is missing.
pub record MariaDb : Type 0 where
  pub root_secret_name : String
  pub root_secret_key : Option String

-- What the code reads of a resource of the MariaDB operator: the pairs of type and status of its
-- conditions, if it has a list of them, and of a User its `spec.name` and `spec.passwordSecretKeyRef`.
pub record CustomResource : Type 0 where
  pub conditions : Option (List (String × String))
  pub user_name : String
  pub password_secret_name : String
  pub password_secret_key : String

-- The part of a Job that the controllers decide: the container's name and image, its arguments, the
-- claim with the sites, the mounted secret and the environment.
pub record JobSpec : Type 0 where
  pub container : String
  pub image : String
  pub args : List String
  pub claim : String
  pub secret : Option String
  pub env : List EnvVar

-- An Ingress: class, host, service, TLS secret and annotations, the last of a key first.
pub record IngressSpec : Type 0 where
  pub class_name : String
  pub host : String
  pub service : String
  pub tls_secret : Option String
  pub annotations : List (String × String)

pub record RouteSpec : Type 0 where
  pub host : String
  pub service : String
  pub termination : String
  pub annotations : List (String × String)

-- What the code reads of a pod: whether its phase is Failed, and its status message.
pub record Pod : Type 0 where
  pub failed_phase : Bool
  pub status_message : String

pub record StorageClass : Type 0 where
  pub name : String
  pub provisioner : String
  pub annotations : List (String × String)

-- A PersistentVolumeClaim: its access mode, its size, its class if it names one, and its annotations,
-- the last of a key first.
pub record ClaimSpec : Type 0 where
  pub access_mode : String
  pub size : String
  pub class_name : Option String
  pub annotations : List (String × String)

-- A CronJob: its schedule and its job.
pub record CronJobSpec : Type 0 where
  pub schedule : String
  pub job : JobSpec
