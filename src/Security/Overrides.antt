-- ===== src/Security/Overrides.antt =====
-- Who decides the identities that pods run under.
use frappe_operator.Common.{◌≡◌, refl, String, Bool, true, false, Option, none, some, List, or_else}
use frappe_operator.Common.Int.{ℤ}
use frappe_operator.Pods.{PodSecurityContext, SecurityContext}
use frappe_operator.Types.{SecurityConfig}
use frappe_operator.Kube.{Got}
use frappe_operator.Security.{
  Environment, get_default_uid, get_default_gid, get_default_fs_group, override_pod_context,
  override_container_context, pod_context_of, container_context_of, pod_security_context_for_bench,
  container_security_context_for_bench,
}

-- A field of a context that may be missing.
abbrev pub set_by : {A B : Type 0} → Option A → (A → Option B) → Option B
set_by none f = none
set_by (some a) f = f a

-- The operator's defaults do not count on OpenShift, which assigns identities itself.
abbrev pub outside : Bool → Option ℤ → Option ℤ
outside true d = none
outside false d = d

abbrev pub PodIdentities :
    Option PodSecurityContext → Option ℤ → Option ℤ → Option ℤ → PodSecurityContext → Type 0
PodIdentities user uid gid fs_gid p =
    (p.run_as_user ≡ or_else (set_by user (λ u. u.run_as_user)) uid)
    × (p.run_as_group ≡ or_else (set_by user (λ u. u.run_as_group)) gid)
    × (p.fs_group ≡ or_else (set_by user (λ u. u.fs_group)) fs_gid)

abbrev pub ContainerIdentities :
    Option SecurityContext → Option ℤ → Option ℤ → SecurityContext → Type 0
ContainerIdentities user uid gid c =
    (c.run_as_user ≡ or_else (set_by user (λ u. u.run_as_user)) uid)
    × (c.run_as_group ≡ or_else (set_by user (λ u. u.run_as_group)) gid)

override-PodIdentities :
    (user : Option PodSecurityContext) (d : PodSecurityContext)
    → PodIdentities user d.run_as_user d.run_as_group d.fs_group (override_pod_context user d)
unfolding override_pod_context
override-PodIdentities none d = (refl, refl, refl)
override-PodIdentities (some u) d = (refl, refl, refl)

override-ContainerIdentities :
    (user : Option SecurityContext) (d : SecurityContext)
    → ContainerIdentities user d.run_as_user d.run_as_group (override_container_context user d)
unfolding override_container_context
override-ContainerIdentities none d = (refl, refl)
override-ContainerIdentities (some u) d = (refl, refl)

-- In the contexts of the pods and the containers of a bench's components, less its Redis, which has
-- contexts of its own, the user and the group, and the group of the volumes, are what the bench sets
-- for the pod and for the container, and else what `getDefaultUID`, `getDefaultGID` and
-- `getDefaultFSGroup` return, but nothing on OpenShift.
pub security_contexts-Identities :
    (env : Environment) (openshift : Bool) (g : Got (List (String × String)))
    (s : Option SecurityConfig)
    → PodIdentities
        (pod_context_of s)
        (outside openshift (get_default_uid env))
        (outside openshift (get_default_gid env))
        (outside openshift (get_default_fs_group env))
        (pod_security_context_for_bench env openshift g s)
      × ContainerIdentities
          (container_context_of s)
          (outside openshift (get_default_uid env))
          (outside openshift (get_default_gid env))
          (container_security_context_for_bench env openshift s)
unfolding pod_security_context_for_bench container_security_context_for_bench
security_contexts-Identities env true g s = (
  override-PodIdentities (pod_context_of s) _,
  override-ContainerIdentities (container_context_of s) _,
)
security_contexts-Identities env false g s = (
  override-PodIdentities (pod_context_of s) _,
  override-ContainerIdentities (container_context_of s) _,
)
