-- ===== src/PodConfig/Placement.antt =====
-- Which nodes the placement admits.
use frappe_operator.Common.{
  ℕ, zero, suc, ◌≡◌, refl, ◌∙◌, String, Bool, false, ◌&&◌, Option, none, some, List, [], ◌∷◌, All,
  map, arith, deref_or,
}
use mathlib.Core.List.{◌++◌}
use frappe_operator.Pods.{Requirement, NodeSelectorTerm, NodeAffinity, Affinity}
use frappe_operator.Types.{PodConfig, GeoTagConfig}
use frappe_operator.PodConfig.{
  region_key, zone_key, only_value, geo_requirements, extend_term, require_all, no_node_affinity,
  place, after_placing, geo_placed, apply_pod_config,
}
use frappe_operator.PodConfig.Nodes.{
  all_hold, is_empty, is_empty_term, term_admits, any_admits, terms_admit, admits, FullTerms,
  IsFull, affinity_of, labelled, located, geo_tag_of, after_calls,
}

abbrev requirements_of : Option GeoTagConfig → List Requirement
requirements_of none = []
requirements_of (some g) = geo_requirements g

all_hold-append :
    (holds : Requirement → Bool) (xs ys : List Requirement)
    → all_hold holds (xs ++ ys) ≡ all_hold holds xs && all_hold holds ys
all_hold-append holds [] ys = refl
all_hold-append holds (x ∷ xs) ys = ground (arith, all_hold-append holds xs ys)

is_empty-append : (xs ys : List Requirement) → is_empty (xs ++ ys) ≡ is_empty xs && is_empty ys
is_empty-append [] ys = refl
is_empty-append (x ∷ xs) ys = refl

module _ (holds : Requirement → Bool) (reqs : List Requirement) where
  term_admits-extend :
      (t : NodeSelectorTerm)
      → is_empty_term t ≡ false
      → term_admits holds (extend_term reqs t) ≡ term_admits holds t && all_hold holds reqs
  term_admits-extend t full = ground (
    arith,
    all_hold-append holds t.match_expressions reqs,
    is_empty-append t.match_expressions reqs,
  )

  any_admits-extend :
      (ts : List NodeSelectorTerm)
      → All (λ t. is_empty_term t ≡ false) ts
      → any_admits holds (map (extend_term reqs) ts) ≡ any_admits holds ts && all_hold holds reqs
  any_admits-extend [] full = refl
  any_admits-extend (t ∷ ts) full =
      ground (arith, term_admits-extend t full.0, any_admits-extend ts full.1)

module _ (holds : Requirement → Bool) (r : Requirement) (rs : List Requirement) where
  require_all-admits :
      (q : Option (List NodeSelectorTerm))
      → FullTerms q
      → any_admits holds (require_all (r ∷ rs) (deref_or q []))
        ≡ terms_admit holds q && all_hold holds (r ∷ rs)
  unfolding require_all
  require_all-admits none full = ground arith
  require_all-admits (some []) full = absurd (full.0 refl)
  require_all-admits (some (t ∷ ts)) full = any_admits-extend holds (r ∷ rs) (t ∷ ts) full.1

  require_node-admits :
      (o : Option NodeAffinity)
      → FullTerms (elim o [ none ↦ none | some n ↦ n.required ])
      → any_admits holds (require_all (r ∷ rs) (deref_or (deref_or o no_node_affinity).required []))
        ≡ terms_admit holds (elim o [ none ↦ none | some n ↦ n.required ])
          && all_hold holds (r ∷ rs)
  require_node-admits none full = require_all-admits none tt
  require_node-admits (some n) full = require_all-admits n.required full

pub place-admits :
    (holds : Requirement → Bool) (reqs : List Requirement) (a : Option Affinity)
    → IsFull a
    → admits holds (place reqs a) ≡ admits holds a && all_hold holds reqs
unfolding place
place-admits holds [] a full = ground arith
place-admits holds (r ∷ rs) none full = require_all-admits holds r rs none tt
place-admits holds (r ∷ rs) (some a) full = require_node-admits holds r rs a.node_affinity full

extend-Full :
    (r : Requirement) (rs : List Requirement) (ts : List NodeSelectorTerm)
    → All (λ t. is_empty_term t ≡ false) (map (extend_term (r ∷ rs)) ts)
extend-Full r rs [] = tt
extend-Full r rs (t ∷ ts) =
    (ground (arith, is_empty-append t.match_expressions (r ∷ rs)), extend-Full r rs ts)

require_all-Full :
    (r : Requirement) (rs : List Requirement) (ts : List NodeSelectorTerm)
    → FullTerms (some (require_all (r ∷ rs) ts))
unfolding require_all
require_all-Full r rs [] = ((λ e. cc), (refl, tt))
require_all-Full r rs (t ∷ ts) = ((λ e. cc), extend-Full r rs (t ∷ ts))

place-IsFull : (reqs : List Requirement) (a : Option Affinity) → IsFull a → IsFull (place reqs a)
unfolding place
place-IsFull [] a full = full
place-IsFull (r ∷ rs) none full = require_all-Full r rs []
place-IsFull (r ∷ rs) (some a) full =
    require_all-Full r rs (deref_or (deref_or a.node_affinity no_node_affinity).required [])

module _ (holds : Requirement → Bool) where
  labelled-hold : (key v : String) → all_hold holds (only_value key v) ≡ labelled holds key v
  labelled-hold key v = ground arith

  requirements-located :
      (g : Option GeoTagConfig) → all_hold holds (requirements_of g) ≡ located holds g
  unfolding geo_requirements
  requirements-located none = refl
  requirements-located (some g) = ground (
    arith,
    all_hold-append holds (only_value region_key g.region) (only_value zone_key g.zone),
    labelled-hold region_key g.region,
    labelled-hold zone_key g.zone,
  )

  geo_placed-admits :
      (g : Option GeoTagConfig) (a : Option Affinity)
      → IsFull a
      → admits holds (geo_placed g a) ≡ admits holds a && located holds g
  geo_placed-admits none a full = ground arith
  geo_placed-admits (some g) a full =
      rw (← requirements-located (some g)) (place-admits holds (geo_requirements g) a full)

  call-admits :
      (labels : List (String × String)) (c : Option PodConfig)
      → IsFull (affinity_of c)
      → admits holds (apply_pod_config c labels).0.affinity
        ≡ admits holds (affinity_of c) && located holds (geo_tag_of c)
  unfolding apply_pod_config
  call-admits labels none full = refl
  call-admits labels (some c) full = geo_placed-admits c.geo_tag c.affinity full

  left-admits :
      (g : Option GeoTagConfig) (a : Option Affinity)
      → IsFull a
      → admits holds (after_placing a (geo_placed g a)) && located holds g
        ≡ admits holds a && located holds g
  left-admits g none full = refl
  left-admits g (some a) full = ground (arith, geo_placed-admits g (some a) full)

  call-left :
      (labels : List (String × String)) (c : Option PodConfig)
      → IsFull (affinity_of c)
      → admits holds (affinity_of (apply_pod_config c labels).1)
          && located holds (geo_tag_of (apply_pod_config c labels).1)
        ≡ admits holds (affinity_of c) && located holds (geo_tag_of c)
  unfolding apply_pod_config
  call-left labels none full = refl
  call-left labels (some c) full = left-admits c.geo_tag c.affinity full

left-IsFull :
    (g : Option GeoTagConfig) (a : Option Affinity)
    → IsFull a
    → IsFull (after_placing a (geo_placed g a))
left-IsFull g none full = tt
left-IsFull none (some a) full = full
left-IsFull (some g) (some a) full = place-IsFull (geo_requirements g) (some a) full

call-IsFull :
    (labels : List (String × String)) (c : Option PodConfig)
    → IsFull (affinity_of c)
    → IsFull (affinity_of (apply_pod_config c labels).1)
unfolding apply_pod_config
call-IsFull labels none full = tt
call-IsFull labels (some c) full = left-IsFull c.geo_tag c.affinity full

-- The placement that a call returns admits a node exactly if the affinity of the configuration did
-- before the first call and the node has the configured region under the label
-- `topology.kubernetes.io/region` and the configured zone under `topology.kubernetes.io/zone`, where
-- they are set. So the requirements that every call adds to the shared affinity again change no
-- placement. The required terms, if there are any, must not be empty.
pub apply_pod_config-admits :
    (holds : Requirement → Bool) (n : ℕ) (labels : List (String × String)) (c : Option PodConfig)
    → IsFull (affinity_of c)
    → admits holds (apply_pod_config (after_calls n labels c) labels).0.affinity
      ≡ admits holds (affinity_of c) && located holds (geo_tag_of c)
unfolding after_calls
apply_pod_config-admits holds zero labels c full = call-admits holds labels c full
apply_pod_config-admits holds (suc n) labels c full =
    apply_pod_config-admits holds n labels (apply_pod_config c labels).1 (call-IsFull labels c full)
    ∙ call-left holds labels c full
