-- ===== src/PodConfig.antt =====
-- Where the pods of a bench run: `applyPodConfig` of controllers/pod_config.go.
pub mod Nodes
pub mod Placement
mod Examples
use frappe_operator.Common.{
  String, Bool, Option, none, some, List, [], ◌∷◌, str_eq, deref_or, map, if◌then◌else◌,
}
use mathlib.Core.List.{◌++◌}
use frappe_operator.Pods.{Requirement, NodeSelectorTerm, NodeAffinity, Affinity}
use frappe_operator.Types.{GeoTagConfig, PodConfig}
use frappe_operator.Resources.{set_all}

-- The four results.
pub record Applied : Type 0 where
  pub node_selector : List (String × String)
  pub affinity : Option Affinity
  pub tolerations : List String
  pub labels : List (String × String)

abbrev pub region_key : String
region_key = "topology.kubernetes.io/region"

abbrev pub zone_key : String
zone_key = "topology.kubernetes.io/zone"

abbrev pub only_value : String → String → List Requirement
only_value key v =
    if str_eq v "" then [] else record { key = key; operator = "In"; values = v ∷ [] } ∷ []

pub geo_requirements : GeoTagConfig → List Requirement
geo_requirements g = only_value region_key g.region ++ only_value zone_key g.zone

abbrev geo_label : String → String → List (String × String)
geo_label key v = if str_eq v "" then [] else (key, v) ∷ []

pub geo_labels : GeoTagConfig → List (String × String)
geo_labels g = geo_label zone_key g.zone ++ geo_label region_key g.region

abbrev pub extend_term : List Requirement → NodeSelectorTerm → NodeSelectorTerm
extend_term reqs t = record t { match_expressions = t.match_expressions ++ reqs }

-- The loop over the terms, or the new term.
pub require_all : List Requirement → List NodeSelectorTerm → List NodeSelectorTerm
require_all reqs [] = record { match_expressions = reqs; match_fields = [] } ∷ []
require_all reqs (t ∷ ts) = map (extend_term reqs) (t ∷ ts)

abbrev no_affinity : Affinity
no_affinity = record { node_affinity = none; pod_affinities = "" }

abbrev no_node_affinity : NodeAffinity
no_node_affinity = record { required = none; preferred = "" }

abbrev require_node : List Requirement → NodeAffinity → NodeAffinity
require_node reqs n = record n { required = some (require_all reqs (deref_or n.required [])) }

abbrev require_affinity : List Requirement → Affinity → Affinity
require_affinity reqs a = record a {
  node_affinity = some (require_node reqs (deref_or a.node_affinity no_node_affinity));
}

pub place : List Requirement → Option Affinity → Option Affinity
unfolding require_all
place [] a = a
place (r ∷ rs) a = some (require_affinity (r ∷ rs) (deref_or a no_affinity))

abbrev geo_placed : Option GeoTagConfig → Option Affinity → Option Affinity
geo_placed none a = a
geo_placed (some g) a = place (geo_requirements g) a

abbrev geo_labelled : Option GeoTagConfig → List (String × String) → List (String × String)
geo_labelled none m = m
geo_labelled (some g) m = set_all (geo_labels g) m

-- The affinity of the configuration, if it has one, is changed in place, through the pointer that the
-- result shares; if it has none, the result is new and the configuration stays.
abbrev pub after_placing : Option Affinity → Option Affinity → Option Affinity
after_placing none placed = none
after_placing (some a) placed = placed

abbrev apply_to : PodConfig → List (String × String) → Applied × PodConfig
apply_to c initial =
    let placed = geo_placed c.geo_tag c.affinity in
    (
      record {
        node_selector = c.node_selector;
        affinity = placed;
        tolerations = c.tolerations;
        labels = geo_labelled c.geo_tag (set_all c.labels initial);
      },
      record c { affinity = after_placing c.affinity placed },
    )

-- The results, and the configuration as the call leaves it.
pub apply_pod_config : Option PodConfig → List (String × String) → Applied × Option PodConfig
unfolding place geo_requirements geo_labels
apply_pod_config none initial =
    (record { node_selector = []; affinity = none; tolerations = []; labels = initial }, none)
apply_pod_config (some c) initial = let r = apply_to c initial in (r.0, some r.1)
