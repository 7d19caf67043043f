-- ===== src/PodConfig/Nodes.antt =====
-- Which nodes the placement admits. Kubernetes decides a requirement at a node, here by `holds`: a
-- term admits a node at which all its requirements hold, if it has any, and an affinity one that
-- some of its required terms admits.
use frappe_operator.Common.{
  ℕ, zero, suc, ◌≡◌, ◌≢◌, String, Bool, true, false, ◌&&◌, ◌||◌, not, Option, none, some, List, [],
  ◌∷◌, All, str_eq, if◌then◌else◌,
}
use frappe_operator.Pods.{Requirement, NodeSelectorTerm, Affinity}
use frappe_operator.Types.{PodConfig, GeoTagConfig}
use frappe_operator.PodConfig.{apply_pod_config}

abbrev pub all_hold : (Requirement → Bool) → List Requirement → Bool
all_hold holds [] = true
all_hold holds (r ∷ rs) = holds r && all_hold holds rs

abbrev pub is_empty : List Requirement → Bool
is_empty [] = true
is_empty (r ∷ rs) = false

abbrev pub is_empty_term : NodeSelectorTerm → Bool
is_empty_term t = is_empty t.match_expressions && is_empty t.match_fields

abbrev pub term_admits : (Requirement → Bool) → NodeSelectorTerm → Bool
term_admits holds t =
    not (is_empty_term t) && all_hold holds t.match_expressions && all_hold holds t.match_fields

abbrev pub any_admits : (Requirement → Bool) → List NodeSelectorTerm → Bool
any_admits holds [] = false
any_admits holds (t ∷ ts) = term_admits holds t || any_admits holds ts

abbrev pub terms_admit : (Requirement → Bool) → Option (List NodeSelectorTerm) → Bool
terms_admit holds none = true
terms_admit holds (some ts) = any_admits holds ts

-- The required terms, if there are any.
abbrev pub terms_of : Option Affinity → Option (List NodeSelectorTerm)
terms_of none = none
terms_of (some a) = elim a.node_affinity [ none ↦ none | some n ↦ n.required ]

abbrev pub admits : (Requirement → Bool) → Option Affinity → Bool
admits holds a = terms_admit holds (terms_of a)

-- An affinity that requires something has terms, and none of them is empty.
abbrev pub FullTerms : Option (List NodeSelectorTerm) → Type 0
FullTerms none = Unit
FullTerms (some ts) = (ts ≢ []) × All (λ t. is_empty_term t ≡ false) ts

abbrev pub IsFull : Option Affinity → Type 0
IsFull a = FullTerms (terms_of a)

abbrev pub affinity_of : Option PodConfig → Option Affinity
affinity_of none = none
affinity_of (some c) = c.affinity

-- Whether a node's label with the key has the value, if the value is not empty.
abbrev pub labelled : (Requirement → Bool) → String → String → Bool
labelled holds key v =
    if str_eq v "" then true else holds (record { key = key; operator = "In"; values = v ∷ [] })

-- Whether a node is in the region and the zone of the configuration, where they are set.
abbrev pub located : (Requirement → Bool) → Option GeoTagConfig → Bool
located holds none = true
located holds (some g) =
    labelled holds "topology.kubernetes.io/region" g.region
    && labelled holds "topology.kubernetes.io/zone" g.zone

abbrev pub geo_tag_of : Option PodConfig → Option GeoTagConfig
geo_tag_of none = none
geo_tag_of (some c) = c.geo_tag

-- The configuration after some calls: each changes it in place.
unfoldable pub after_calls : ℕ → List (String × String) → Option PodConfig → Option PodConfig
after_calls zero labels c = c
after_calls (suc n) labels c = after_calls n labels (apply_pod_config c labels).1
