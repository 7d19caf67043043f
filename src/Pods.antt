-- ===== src/Pods.antt =====
-- What the operator writes of pods, and of the objects that run them: the types of k8s.io/api that
-- pkg/resources builds, with the fields that the operator sets or copies. What it only copies and
-- never looks into stands as a text. Of the entries of a map with one key the first counts.
use frappe_operator.Common.{String, Bool, Option, List}
use frappe_operator.Common.Int.{ℤ}

pub record ResourceRequirements : Type 0 where
  pub requests : List (String × String)
  pub limits : List (String × String)

pub record SeLinuxOptions : Type 0 where
  pub user : String
  pub role : String
  pub kind : String
  pub level : String

pub record Capabilities : Type 0 where
  pub add : List String
  pub drop : List String

-- A nil slice is `none`.
pub record PodSecurityContext : Type 0 where
  pub run_as_non_root : Option Bool
  pub run_as_user : Option ℤ
  pub run_as_group : Option ℤ
  pub fs_group : Option ℤ
  pub fs_group_change_policy : Option String
  pub supplemental_groups : Option (List ℤ)
  pub se_linux_options : Option SeLinuxOptions
  pub windows_options : Option String
  pub sysctls : Option String
  pub seccomp_profile : Option String

pub record SecurityContext : Type 0 where
  pub run_as_non_root : Option Bool
  pub run_as_user : Option ℤ
  pub run_as_group : Option ℤ
  pub privileged : Option Bool
  pub allow_privilege_escalation : Option Bool
  pub capabilities : Option Capabilities
  pub read_only_root_filesystem : Option Bool
  pub se_linux_options : Option SeLinuxOptions
  pub windows_options : Option String
  pub proc_mount : Option String
  pub seccomp_profile : Option String

pub record Requirement : Type 0 where
  pub key : String
  pub operator : String
  pub values : List String

pub record NodeSelectorTerm : Type 0 where
  pub match_expressions : List Requirement
  pub match_fields : List Requirement

-- `required` are the terms of `requiredDuringSchedulingIgnoredDuringExecution`.
pub record NodeAffinity : Type 0 where
  pub required : Option (List NodeSelectorTerm)
  pub preferred : String

pub record Affinity : Type 0 where
  pub node_affinity : Option NodeAffinity
  pub pod_affinities : String

-- A variable has a value or takes it from a key of a secret.
pub data EnvValue : Type 0 where
  value : String → EnvValue
  secret_key_ref : String → String → EnvValue

pub record EnvVar : Type 0 where
  pub name : String
  pub source : EnvValue

pub record VolumeMount : Type 0 where
  pub name : String
  pub mount_path : String
  pub sub_path : String

pub record ContainerPort : Type 0 where
  pub name : String
  pub container_port : ℤ
  pub protocol : String

pub record Container : Type 0 where
  pub name : String
  pub image : String
  pub command : List String
  pub args : List String
  pub env : List EnvVar
  pub volume_mounts : List VolumeMount
  pub ports : List ContainerPort
  pub resources : ResourceRequirements
  pub security_context : Option SecurityContext

-- A volume with a claim.
pub record Volume : Type 0 where
  pub name : String
  pub claim_name : String

pub record PodTemplate : Type 0 where
  pub labels : List (String × String)
  pub containers : List Container
  pub volumes : List Volume
  pub security_context : Option PodSecurityContext
  pub node_selector : List (String × String)
  pub affinity : Option Affinity
  pub tolerations : List String

pub record DeploymentSpec : Type 0 where
  pub labels : List (String × String)
  pub annotations : List (String × String)
  pub selector : List (String × String)
  pub replicas : Option ℤ
  pub template : PodTemplate

pub record StatefulSetSpec : Type 0 where
  pub labels : List (String × String)
  pub selector : List (String × String)
  pub service_name : String
  pub replicas : Option ℤ
  pub template : PodTemplate

pub record ServicePort : Type 0 where
  pub name : String
  pub port : ℤ
  pub target_port : ℤ
  pub protocol : String

pub record ServiceSpec : Type 0 where
  pub labels : List (String × String)
  pub selector : List (String × String)
  pub ports : List ServicePort

-- The numbers of a ScaledObject.
pub record ScaledSpec : Type 0 where
  pub min_replica_count : ℤ
  pub max_replica_count : ℤ
  pub cooldown_period : ℤ
  pub polling_interval : ℤ
  pub list_length : ℤ

pub record ScaledObject : Type 0 where
  pub target : String
  pub address : String
  pub list_name : String
  pub numbers : ScaledSpec

-- What is read of a Deployment or a StatefulSet: the image of the first container, `spec.replicas`,
-- and the two counts of its status.
pub record Deployed : Type 0 where
  pub image : Option String
  pub replicas : Option ℤ
  pub status_replicas : ℤ
  pub ready_replicas : ℤ

-- A write to one of these objects. An updated StatefulSet keeps its selector and its service name.
pub data Workload : Type 0 where
  create_deployment : DeploymentSpec → Workload
  update_deployment : Deployed → Workload
  create_service : ServiceSpec → Workload
  create_stateful_set : StatefulSetSpec → Workload
  update_stateful_set : StatefulSetSpec → Workload
  create_scaled_object : ScaledObject → Workload
  update_scaled_object : ScaledObject → Workload
