-- ===== src/ComponentDefaults.antt =====
-- Presets of resources in api/v1alpha1/shared_types.go: `DefaultComponentResources`,
-- `ProductionComponentResources` and `MergeWithDefaults`. Quantities are in their canonical text.
use frappe_operator.Common.{◌≡◌, refl, some, or_else}
use frappe_operator.Types.{ComponentResources}
use frappe_operator.Bench.{requirements}

unfoldable pub default_component_resources : ComponentResources
default_component_resources = record {
  gunicorn = some (requirements "100m" "256Mi" "1" "1Gi");
  nginx = some (requirements "50m" "64Mi" "200m" "256Mi");
  scheduler = some (requirements "50m" "128Mi" "500m" "512Mi");
  socketio = some (requirements "50m" "64Mi" "200m" "256Mi");
  worker_default = some (requirements "100m" "256Mi" "500m" "512Mi");
  worker_long = some (requirements "100m" "256Mi" "1" "1Gi");
  worker_short = some (requirements "50m" "128Mi" "200m" "256Mi");
}

unfoldable pub production_component_resources : ComponentResources
production_component_resources = record {
  gunicorn = some (requirements "500m" "1Gi" "2" "4Gi");
  nginx = some (requirements "100m" "128Mi" "500m" "512Mi");
  scheduler = some (requirements "200m" "256Mi" "1" "1Gi");
  socketio = some (requirements "100m" "128Mi" "500m" "512Mi");
  worker_default = some (requirements "250m" "512Mi" "1" "2Gi");
  worker_long = some (requirements "500m" "1Gi" "2" "4Gi");
  worker_short = some (requirements "100m" "256Mi" "500m" "512Mi");
}

pub merge_with_defaults : ComponentResources → ComponentResources → ComponentResources
merge_with_defaults c defaults = record {
  gunicorn = or_else c.gunicorn defaults.gunicorn;
  nginx = or_else c.nginx defaults.nginx;
  scheduler = or_else c.scheduler defaults.scheduler;
  socketio = or_else c.socketio defaults.socketio;
  worker_default = or_else c.worker_default defaults.worker_default;
  worker_long = or_else c.worker_long defaults.worker_long;
  worker_short = or_else c.worker_short defaults.worker_short;
}

merged_test :
    (merge_with_defaults default_component_resources production_component_resources).gunicorn
    ≡ some (requirements "100m" "256Mi" "1" "1Gi")
unfolding merge_with_defaults default_component_resources
merged_test = refl
