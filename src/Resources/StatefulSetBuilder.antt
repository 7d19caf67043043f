-- ===== src/Resources/StatefulSetBuilder.antt =====
-- pkg/resources/statefulset_builder.go.
use frappe_operator.Common.{String, some, none, List, [], ◌∷◌}
use frappe_operator.Common.Int.{ℤ}
use mathlib.Core.List.{◌++◌}
use frappe_operator.Pods.{PodSecurityContext, Container, StatefulSetSpec}
use frappe_operator.Resources.{set_all}
use frappe_operator.Resources.DeploymentBuilder.{empty_template}

abbrev pub new_stateful_set_builder : StatefulSetSpec
new_stateful_set_builder = record {
  labels = [];
  selector = [];
  service_name = "";
  replicas = none;
  template = empty_template;
}

abbrev pub with_labels : List (String × String) → StatefulSetSpec → StatefulSetSpec
with_labels m b = record b {
  labels = set_all m b.labels;
  template = record b.template { labels = set_all m b.template.labels };
}

abbrev pub with_selector : List (String × String) → StatefulSetSpec → StatefulSetSpec
with_selector m b = record b {
  selector = set_all m b.selector;
  template = record b.template { labels = set_all m b.template.labels };
}

abbrev pub with_service_name : String → StatefulSetSpec → StatefulSetSpec
with_service_name name b = record b { service_name = name }

abbrev pub with_replicas : ℤ → StatefulSetSpec → StatefulSetSpec
with_replicas n b = record b { replicas = some n }

abbrev pub with_container : Container → StatefulSetSpec → StatefulSetSpec
with_container c b = record b {
  template = record b.template { containers = b.template.containers ++ (c ∷ []) };
}

abbrev pub with_pod_security_context : PodSecurityContext → StatefulSetSpec → StatefulSetSpec
with_pod_security_context context b = record b {
  template = record b.template { security_context = some context };
}
