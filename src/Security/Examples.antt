-- ===== src/Security/Examples.antt =====
-- Tests of the security contexts, and their theorem at a concrete input.
use frappe_operator.Common.{◌≡◌, refl, false, none, some, [], ◌∷◌, if◌then◌else◌, str_eq}
use frappe_operator.Common.Int.{pos}
use frappe_operator.Types.{SecurityConfig}
use frappe_operator.Pods.{PodSecurityContext}
use frappe_operator.Kube.{got, lookup}
use frappe_operator.Security.{
  Environment, env_int, get_default_uid, get_default_gid, get_default_fs_group,
  get_namespace_mcs_label, pod_security_context_for_bench, container_security_context_for_bench,
  get_redis_pod_security_context,
}
use frappe_operator.Security.Overrides.{
  PodIdentities, ContainerIdentities, outside, security_contexts-Identities,
}

abbrev uid_env : Environment
uid_env key = if str_eq key "FRAPPE_DEFAULT_UID" then "1001" else ""

abbrev unset_context : PodSecurityContext
unset_context = record {
  run_as_non_root = none;
  run_as_user = some (pos 7);
  run_as_group = none;
  fs_group = none;
  fs_group_change_policy = none;
  supplemental_groups = none;
  se_linux_options = none;
  windows_options = none;
  sysctls = none;
  seccomp_profile = none;
}

abbrev user_seven : SecurityConfig
user_seven = record { pod_security_context = some unset_context; security_context = none }

unset_test : get_default_gid uid_env ≡ none
unfolding get_default_gid env_int
unset_test = refl

mcs_test : get_namespace_mcs_label (got (("openshift.io/sa.scc.mcs", "s0:c1") ∷ [])) ≡ "s0:c1"
unfolding get_namespace_mcs_label lookup
mcs_test = refl

-- Here the bench's settings replace all the defaults.
redis_test :
    (get_redis_pod_security_context false none).run_as_user ≡ some (pos 999)
    × (get_redis_pod_security_context false (some user_seven)).seccomp_profile ≡ none
unfolding get_redis_pod_security_context
redis_test = (refl, refl)

security_contexts-Identities_example :
    PodIdentities
      (some unset_context)
      (outside false (get_default_uid uid_env))
      (outside false (get_default_gid uid_env))
      (outside false (get_default_fs_group uid_env))
      (pod_security_context_for_bench uid_env false (got []) (some user_seven))
    × ContainerIdentities none
        (outside false (get_default_uid uid_env))
        (outside false (get_default_gid uid_env))
        (container_security_context_for_bench uid_env false (some user_seven))
security_contexts-Identities_example =
    security_contexts-Identities uid_env false (got []) (some user_seven)
