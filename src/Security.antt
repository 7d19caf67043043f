-- ===== src/Security.antt =====
-- Security contexts: controllers/security_context.go, the defaults and the MCS label of
-- controllers/utils.go, and the contexts of Redis in controllers/frappebench_helpers.go.
pub mod Overrides
mod Examples
use frappe_operator.Common.{
  ℕ, String, Bool, true, false, Option, none, some, List, [], ◌∷◌, str_eq, or_else, deref_or, not,
  if◌then◌else◌,
}
use frappe_operator.Common.Int.{ℤ, pos}
use frappe_operator.Pods.{PodSecurityContext, SecurityContext, SeLinuxOptions, Capabilities}
use frappe_operator.Types.{SecurityConfig}
use frappe_operator.Kube.{Got, got, failed, lookup}
use frappe_operator.Requeue.{atoi}

-- `os.Getenv`: `""` for a variable that is not set.
abbrev pub Environment : Type 0
Environment = String → String

-- `strconv.ParseInt(value, 10, 64)` is `atoi`, as `int` has 64 bits.
env_int : Environment → String → Option ℤ
env_int env key = if str_eq (env key) "" then none else atoi (env key)

pub get_default_uid : Environment → Option ℤ
unfolding env_int
get_default_uid env = env_int env "FRAPPE_DEFAULT_UID"

pub get_default_gid : Environment → Option ℤ
unfolding env_int
get_default_gid env = env_int env "FRAPPE_DEFAULT_GID"

pub get_default_fs_group : Environment → Option ℤ
unfolding env_int
get_default_fs_group env = env_int env "FRAPPE_DEFAULT_FSGROUP"

-- The annotations of the namespace, as they were read.
pub get_namespace_mcs_label : Got (List (String × String)) → String
get_namespace_mcs_label (failed e) = ""
get_namespace_mcs_label (got annotations) =
    deref_or (lookup "openshift.io/sa.scc.mcs" annotations) ""

abbrev mcs_options : String → Option SeLinuxOptions
mcs_options label =
    if str_eq label ""
    then none
    else some (record { user = ""; role = ""; kind = ""; level = label })

-- Before the settings of the bench.
pub default_pod_context : Environment → Bool → String → PodSecurityContext
unfolding get_default_uid get_default_gid get_default_fs_group
default_pod_context env openshift label = record {
  run_as_non_root = some true;
  run_as_user = if openshift then none else get_default_uid env;
  run_as_group = if openshift then none else get_default_gid env;
  fs_group = if openshift then none else get_default_fs_group env;
  fs_group_change_policy = some "Always";
  supplemental_groups = none;
  se_linux_options = if openshift then mcs_options label else none;
  windows_options = none;
  sysctls = none;
  seccomp_profile = if openshift then none else some "RuntimeDefault";
}

-- `if user.X != nil { ctx.X = user.X }` for each field.
pub override_pod_context : Option PodSecurityContext → PodSecurityContext → PodSecurityContext
override_pod_context none c = c
override_pod_context (some u) c = record {
  run_as_non_root = or_else u.run_as_non_root c.run_as_non_root;
  run_as_user = or_else u.run_as_user c.run_as_user;
  run_as_group = or_else u.run_as_group c.run_as_group;
  fs_group = or_else u.fs_group c.fs_group;
  fs_group_change_policy = or_else u.fs_group_change_policy c.fs_group_change_policy;
  supplemental_groups = or_else u.supplemental_groups c.supplemental_groups;
  se_linux_options = or_else u.se_linux_options c.se_linux_options;
  windows_options = or_else u.windows_options c.windows_options;
  sysctls = or_else u.sysctls c.sysctls;
  seccomp_profile = or_else u.seccomp_profile c.seccomp_profile;
}

abbrev pub pod_context_of : Option SecurityConfig → Option PodSecurityContext
pod_context_of none = none
pod_context_of (some s) = s.pod_security_context

abbrev pub container_context_of : Option SecurityConfig → Option SecurityContext
container_context_of none = none
container_context_of (some s) = s.security_context

pub pod_security_context_for_bench :
    Environment → Bool → Got (List (String × String)) → Option SecurityConfig → PodSecurityContext
unfolding default_pod_context override_pod_context get_namespace_mcs_label
pod_security_context_for_bench env openshift namespace security =
    override_pod_context (pod_context_of security)
      (default_pod_context env openshift (get_namespace_mcs_label namespace))

pub default_container_context : Environment → Bool → SecurityContext
unfolding get_default_uid get_default_gid
default_container_context env openshift = record {
  run_as_non_root = some true;
  run_as_user = if openshift then none else get_default_uid env;
  run_as_group = if openshift then none else get_default_gid env;
  privileged = none;
  allow_privilege_escalation = some false;
  capabilities = some (record { add = []; drop = "ALL" ∷ [] });
  read_only_root_filesystem = some false;
  se_linux_options = none;
  windows_options = none;
  proc_mount = none;
  seccomp_profile = none;
}

pub override_container_context : Option SecurityContext → SecurityContext → SecurityContext
override_container_context none c = c
override_container_context (some u) c = record {
  run_as_non_root = or_else u.run_as_non_root c.run_as_non_root;
  run_as_user = or_else u.run_as_user c.run_as_user;
  run_as_group = or_else u.run_as_group c.run_as_group;
  privileged = or_else u.privileged c.privileged;
  allow_privilege_escalation = or_else u.allow_privilege_escalation c.allow_privilege_escalation;
  capabilities = or_else u.capabilities c.capabilities;
  read_only_root_filesystem = or_else u.read_only_root_filesystem c.read_only_root_filesystem;
  se_linux_options = or_else u.se_linux_options c.se_linux_options;
  windows_options = or_else u.windows_options c.windows_options;
  proc_mount = or_else u.proc_mount c.proc_mount;
  seccomp_profile = or_else u.seccomp_profile c.seccomp_profile;
}

pub container_security_context_for_bench :
    Environment → Bool → Option SecurityConfig → SecurityContext
unfolding default_container_context override_container_context
container_security_context_for_bench env openshift security =
    override_container_context (container_context_of security)
      (default_container_context env openshift)

abbrev redis_id : Bool → Option ℤ
redis_id openshift = if openshift then none else some (pos 999)

-- Settings of the bench replace the whole context here.
pub get_redis_pod_security_context : Bool → Option SecurityConfig → PodSecurityContext
get_redis_pod_security_context openshift security = deref_or (pod_context_of security) (record {
  run_as_non_root = some true;
  run_as_user = redis_id openshift;
  run_as_group = redis_id openshift;
  fs_group = redis_id openshift;
  fs_group_change_policy = none;
  supplemental_groups = none;
  se_linux_options = none;
  windows_options = none;
  sysctls = none;
  seccomp_profile = some "RuntimeDefault";
})

pub get_redis_container_security_context : Bool → Option SecurityConfig → SecurityContext
get_redis_container_security_context openshift security =
    deref_or (container_context_of security) (record {
      run_as_non_root = some true;
      run_as_user = redis_id openshift;
      run_as_group = redis_id openshift;
      privileged = none;
      allow_privilege_escalation = some false;
      capabilities = some (record { add = []; drop = "ALL" ∷ [] });
      read_only_root_filesystem = some false;
      se_linux_options = none;
      windows_options = none;
      proc_mount = none;
      seccomp_profile = none;
    })
