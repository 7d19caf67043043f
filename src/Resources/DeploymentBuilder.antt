-- ===== src/Resources/DeploymentBuilder.antt =====
-- pkg/resources/deployment_builder.go, less the setters that nothing calls.
use frappe_operator.Common.{String, Option, some, none, List, [], ◌∷◌}
use frappe_operator.Common.Int.{ℤ}
use mathlib.Core.List.{◌++◌}
use frappe_operator.Pods.{
  PodSecurityContext, Affinity, Container, Volume, PodTemplate, DeploymentSpec,
}
use frappe_operator.Resources.{set_all}

abbrev pub empty_template : PodTemplate
empty_template = record {
  labels = [];
  containers = [];
  volumes = [];
  security_context = none;
  node_selector = [];
  affinity = none;
  tolerations = [];
}

abbrev pub new_deployment_builder : DeploymentSpec
new_deployment_builder = record {
  labels = [];
  annotations = [];
  selector = [];
  replicas = none;
  template = empty_template;
}

abbrev pub with_labels : List (String × String) → DeploymentSpec → DeploymentSpec
with_labels m b = record b {
  labels = set_all m b.labels;
  template = record b.template { labels = set_all m b.template.labels };
}

abbrev pub with_selector : List (String × String) → DeploymentSpec → DeploymentSpec
with_selector m b = record b {
  selector = set_all m b.selector;
  template = record b.template { labels = set_all m b.template.labels };
}

abbrev pub with_annotations : List (String × String) → DeploymentSpec → DeploymentSpec
with_annotations m b = record b { annotations = set_all m b.annotations }

abbrev pub with_replicas : ℤ → DeploymentSpec → DeploymentSpec
with_replicas n b = record b { replicas = some n }

abbrev pub with_container : Container → DeploymentSpec → DeploymentSpec
with_container c b = record b {
  template = record b.template { containers = b.template.containers ++ (c ∷ []) };
}

abbrev pub with_volume : Volume → DeploymentSpec → DeploymentSpec
with_volume v b = record b {
  template = record b.template { volumes = b.template.volumes ++ (v ∷ []) };
}

abbrev pub with_pvc_volume : String → String → DeploymentSpec → DeploymentSpec
with_pvc_volume name claim b = with_volume (record { name = name; claim_name = claim }) b

abbrev pub with_pod_security_context : PodSecurityContext → DeploymentSpec → DeploymentSpec
with_pod_security_context context b = record b {
  template = record b.template { security_context = some context };
}

abbrev pub with_node_selector : List (String × String) → DeploymentSpec → DeploymentSpec
with_node_selector m b = record b { template = record b.template { node_selector = m } }

abbrev pub with_tolerations : List String → DeploymentSpec → DeploymentSpec
with_tolerations l b = record b { template = record b.template { tolerations = l } }

abbrev pub with_affinity : Option Affinity → DeploymentSpec → DeploymentSpec
with_affinity a b = record b { template = record b.template { affinity = a } }

abbrev pub with_extra_pod_labels : List (String × String) → DeploymentSpec → DeploymentSpec
with_extra_pod_labels m b = record b {
  template = record b.template { labels = set_all m b.template.labels };
}
