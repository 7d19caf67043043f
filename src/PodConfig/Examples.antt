-- ===== src/PodConfig/Examples.antt =====
-- Tests of the placement of pods, and its theorem at a concrete input.
use frappe_operator.Common.{◌≡◌, refl, Bool, some, [], ◌∷◌, ◌&&◌, str_eq}
use frappe_operator.Pods.{Requirement, Affinity}
use frappe_operator.Types.{PodConfig}
use frappe_operator.PodConfig.{geo_requirements, geo_labels, apply_pod_config, region_key, zone_key}
use frappe_operator.PodConfig.Nodes.{admits, affinity_of, located, geo_tag_of, after_calls}
use frappe_operator.PodConfig.Placement.{apply_pod_config-admits}

abbrev on_ssd : Requirement
on_ssd = record { key = "disk"; operator = "In"; values = "ssd" ∷ [] }

abbrev ssd_nodes : Affinity
ssd_nodes = record {
  node_affinity = some (record {
    required = some (record { match_expressions = on_ssd ∷ []; match_fields = [] } ∷ []);
    preferred = "";
  });
  pod_affinities = "";
}

abbrev placed_config : PodConfig
placed_config = record {
  node_selector = [];
  affinity = some ssd_nodes;
  tolerations = [];
  labels = ("team", "erp") ∷ [];
  geo_tag = some (record { region = "eu"; zone = "" });
}

-- A node of the region with the disk, by the keys of its labels.
abbrev has_key : Requirement → Bool
has_key r = str_eq r.key "disk"

geo_test :
    (geo_requirements (record { region = "eu"; zone = "" })
      ≡ record { key = region_key; operator = "In"; values = "eu" ∷ [] } ∷ [])
    × (geo_labels (record { region = "eu"; zone = "a" })
        ≡ (zone_key, "a") ∷ (region_key, "eu") ∷ [])
unfolding geo_requirements geo_labels
geo_test = (refl, refl)

labels_test :
    (apply_pod_config (some placed_config) (("app", "frappe") ∷ [])).0.labels
    ≡ (region_key, "eu") ∷ ("team", "erp") ∷ ("app", "frappe") ∷ []
unfolding apply_pod_config geo_labels
labels_test = refl

apply_pod_config-admits_example :
    admits has_key (apply_pod_config (after_calls 2 [] (some placed_config)) []).0.affinity
    ≡ admits has_key (affinity_of (some placed_config))
      && located has_key (geo_tag_of (some placed_config))
apply_pod_config-admits_example =
    apply_pod_config-admits has_key 2 [] (some placed_config) ((λ e. cc), (refl, tt))
