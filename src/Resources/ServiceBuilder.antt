-- ===== src/Resources/ServiceBuilder.antt =====
-- pkg/resources/service_builder.go, less the setters that nothing calls.
use frappe_operator.Common.{String, List, [], ◌∷◌}
use frappe_operator.Common.Int.{ℤ}
use mathlib.Core.List.{◌++◌}
use frappe_operator.Pods.{ServiceSpec}
use frappe_operator.Resources.{set_all}

abbrev pub new_service_builder : ServiceSpec
new_service_builder = record { labels = []; selector = []; ports = [] }

abbrev pub with_labels : List (String × String) → ServiceSpec → ServiceSpec
with_labels m b = record b { labels = set_all m b.labels }

abbrev pub with_selector : List (String × String) → ServiceSpec → ServiceSpec
with_selector m b = record b { selector = set_all m b.selector }

abbrev pub with_port_protocol : String → ℤ → ℤ → String → ServiceSpec → ServiceSpec
with_port_protocol name port target_port protocol b = record b {
  ports =
      b.ports
      ++ (record { name = name; port = port; target_port = target_port; protocol = protocol } ∷ []);
}

abbrev pub with_port : String → ℤ → ℤ → ServiceSpec → ServiceSpec
with_port name port target_port b = with_port_protocol name port target_port "TCP" b
