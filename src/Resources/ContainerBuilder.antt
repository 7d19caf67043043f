-- ===== src/Resources/ContainerBuilder.antt =====
-- pkg/resources/container_builder.go, less the probes and the other setters that nothing calls.
use frappe_operator.Common.{String, Option, List, [], ◌∷◌, none}
use frappe_operator.Common.Int.{ℤ}
use mathlib.Core.List.{◌++◌}
use frappe_operator.Pods.{ResourceRequirements, SecurityContext, value, EnvVar, Container}

abbrev pub new_container_builder : String → String → Container
new_container_builder name image = record {
  name = name;
  image = image;
  command = [];
  args = [];
  env = [];
  volume_mounts = [];
  ports = [];
  resources = record { requests = []; limits = [] };
  security_context = none;
}

abbrev pub with_command : List String → Container → Container
with_command command b = record b { command = command }

abbrev pub with_args : List String → Container → Container
with_args args b = record b { args = args }

abbrev pub with_env : String → String → Container → Container
with_env name v b = record b { env = b.env ++ (record { name = name; source = value v } ∷ []) }

abbrev pub with_env_from : EnvVar → Container → Container
with_env_from var b = record b { env = b.env ++ (var ∷ []) }

abbrev pub with_volume_mount_sub_path : String → String → String → Container → Container
with_volume_mount_sub_path name mount_path sub_path b = record b {
  volume_mounts =
      b.volume_mounts
      ++ (record { name = name; mount_path = mount_path; sub_path = sub_path } ∷ []);
}

abbrev pub with_port_protocol : String → ℤ → String → Container → Container
with_port_protocol name port protocol b = record b {
  ports = b.ports ++ (record { name = name; container_port = port; protocol = protocol } ∷ []);
}

abbrev pub with_port : String → ℤ → Container → Container
with_port name port b = with_port_protocol name port "TCP" b

abbrev pub with_resources : ResourceRequirements → Container → Container
with_resources resources b = record b { resources = resources }

abbrev pub with_security_context : Option SecurityContext → Container → Container
with_security_context context b = record b { security_context = context }
