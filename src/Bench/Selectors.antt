-- ===== src/Bench/Selectors.antt =====
-- Which pods the services, the deployments and the Redis servers of a bench select.
use Prim.Native.String.{◌++◌}
use mathlib.Core.Path.{subst}
use mathlib.Core.Option.{none-ne-some}
use mathlib.Core.List.{◌++◌ as ◌+++◌}
use frappe_operator.Common.{
  ◌≡◌, ◌↔◌, refl, sym, ap, String, Bool, true, false, Option, some, List, [], ◌∷◌, str_eq, deref_or,
  if◌then◌else◌,
}
use frappe_operator.Common.Int.{ℤ}
use frappe_operator.Pods.{PodSecurityContext, Container}
use frappe_operator.Types.{Bench}
use frappe_operator.Kube.{lookup}
use frappe_operator.PodConfig.{Applied}
use frappe_operator.Bench.{Setup, component_labels, service_spec, deployment_spec}
use frappe_operator.Bench.Redis.{redis_service_spec, redis_stateful_set_spec}

-- A selector selects the pods that have all its labels.
abbrev pub Selects : List (String × String) → List (String × String) → Type 0
Selects selector labels = (k v : String) → lookup k selector ≡ some v → lookup k labels ≡ some v

step-append :
    (b : Bool) (v w : String) (x y : Option String)
    → (x ≡ some w → y ≡ some w)
    → (if b then some v else x) ≡ some w
    → (if b then some v else y) ≡ some w
step-append true v w x y k p = p
step-append false v w x y k p = k p

append-Selects : (xs ys : List (String × String)) → Selects xs (xs +++ ys)
unfolding lookup
append-Selects [] ys k v p = absurd (none-ne-some v p)
append-Selects ((j, w) ∷ xs) ys k v p =
    step-append (str_eq j k) w v _ _ (append-Selects xs ys k v) p

-- The selector of a component selects the pods with the labels of another one, whatever follows
-- these, exactly if the components are the same.
component-Selects :
    (bench : Bench) (c d : String) (rest : List (String × String))
    → Selects (component_labels bench c) (component_labels bench d +++ rest) ↔ (c ≡ d)
unfolding lookup
component-Selects bench c d rest = (
  λ s. ap (λ (o : Option String). deref_or o c) (sym (s "component" c refl)),
  λ p.
      subst (λ (e : String). Selects (component_labels bench c) (component_labels bench e +++ rest))
        p (append-Selects (component_labels bench c) rest),
)

-- Whatever labels the configuration of the pods sets, the pods of a component are selected by the
-- Service of a component exactly if it is the same one, and the Deployment's own selector selects
-- them. The same holds of the Redis servers, whose StatefulSet and Service are named after the role.
pub service-Selects :
    (setup : Setup) (bench : Bench) (c d port_name : String) (port replicas : ℤ)
    (labels : List (String × String)) (applied : Applied) (context : PodSecurityContext)
    (container : Container)
    → (Selects
          (service_spec bench c port_name port labels).selector
          (deployment_spec bench d replicas applied context container).template.labels
        ↔ (c ≡ d))
      × Selects
          (deployment_spec bench d replicas applied context container).selector
          (deployment_spec bench d replicas applied context container).template.labels
      × (Selects
            (redis_service_spec bench c).selector
            (redis_stateful_set_spec setup bench d).template.labels
          ↔ ("redis-" ++ c ≡ "redis-" ++ d))
      × Selects
          (redis_stateful_set_spec setup bench d).selector
          (redis_stateful_set_spec setup bench d).template.labels
unfolding service_spec deployment_spec redis_service_spec redis_stateful_set_spec
service-Selects setup bench c d port_name port replicas labels applied context container = (
  component-Selects bench c d _,
  append-Selects (component_labels bench d) _,
  component-Selects bench ("redis-" ++ c) ("redis-" ++ d) _,
  append-Selects (component_labels bench ("redis-" ++ d)) _,
)
