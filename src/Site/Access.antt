-- ===== src/Site/Access.antt =====
-- How a site is reached: `ensureIngress` and `ensureRoute` of controllers/frappesite_ingress.go.
pub mod Writes
use Prim.Native.String.{◌++◌}
use frappe_operator.Common.{
  ℕ, String, Bool, true, false, not, Option, none, some, List, [], ◌∷◌, str_eq, if◌then◌else◌,
  deref_or,
}
use mathlib.Core.List.{◌++◌ as ◌+++◌}
use frappe_operator.Types.{NamespacedName, TlsConfig, IngressConfig, RouteConfig, Site, Bench}
use frappe_operator.Kube.{
  Err, wrap, Got, got, failed, IngressSpec, RouteSpec, create_ingress, create_route, ingress_kind,
  route_kind, Api, M, pure, raise, ◌>>=◌, ◌>>◌, ask, attempt, check, perform, set_owner,
  is_not_found,
}
use frappe_operator.Database.{text_or, own_key}

-- `x == nil || x.Enabled == nil || *x.Enabled`
abbrev pub ingress_enabled : Option IngressConfig → Bool
ingress_enabled none = true
ingress_enabled (some c) = deref_or c.enabled true

abbrev pub route_enabled : Option RouteConfig → Bool
route_enabled none = true
route_enabled (some c) = deref_or c.enabled true

tls_secret : Site → Option String
tls_secret site =
    if site.spec.tls.enabled
    then some (text_or site.spec.tls.secret_name (site.name ++ "-tls"))
    else none

issuer_annotation : TlsConfig → List (String × String)
issuer_annotation tls =
    if not tls.enabled
    then []
    else if str_eq tls.issuer ""
    then []
    else ("cert-manager.io/cluster-issuer", tls.issuer) ∷ []

abbrev ingress_annotations : Option IngressConfig → List (String × String)
ingress_annotations none = []
ingress_annotations (some c) = c.annotations

-- Later annotations override earlier ones, and so stand before them.
ingress_spec : Site → Bench → String → IngressSpec
unfolding tls_secret issuer_annotation
ingress_spec site bench domain = record {
  class_name = text_or site.spec.ingress_class_name "nginx";
  host = domain;
  service = bench.name ++ "-nginx";
  tls_secret = tls_secret site;
  annotations =
      ingress_annotations site.spec.ingress
      +++ (issuer_annotation site.spec.tls
          +++ (("nginx.ingress.kubernetes.io/proxy-body-size", "100m") ∷ []));
}

create_if_missing : {A : Type 0} → M (Unit {0}) → Got A → M (Unit {0})
create_if_missing make (got x) = pure tt
create_if_missing make (failed e) = if not (is_not_found e) then raise e else make

unfoldable pub ensure_ingress : Site → Bench → String → M (Unit {0})
unfolding ingress_spec create_if_missing
ensure_ingress site bench domain = if not (ingress_enabled site.spec.ingress) then pure tt else (do
  let key = own_key site "-ingress"
  found ← ask (λ api h. api.exists h ingress_kind key)
  create_if_missing
      (do
        set_owner key
        perform (wrap "failed to create Ingress: ")
            (create_ingress key (ingress_spec site bench domain)))
      found)

termination : Option RouteConfig → String
termination none = "edge"
termination (some c) =
    if str_eq c.tls_termination "passthrough"
    then "passthrough"
    else if str_eq c.tls_termination "reencrypt"
    then "reencrypt"
    else "edge"

abbrev route_annotations : Option RouteConfig → List (String × String)
route_annotations none = []
route_annotations (some c) = c.annotations

route_spec : Site → Bench → String → RouteSpec
unfolding termination
route_spec site bench domain = record {
  host = domain;
  service = bench.name ++ "-nginx";
  termination = termination site.spec.route_config;
  annotations = route_annotations site.spec.route_config;
}

unfoldable pub ensure_route : Site → Bench → String → M (Unit {0})
unfolding route_spec create_if_missing
ensure_route site bench domain = do
  let key = own_key site "-route"
  found ← ask (λ api h. api.exists h route_kind key)
  create_if_missing
      (do
        set_owner key
        perform (wrap "failed to create Route: ") (create_route key (route_spec site bench domain)))
      found

-- External access, as `Reconcile` arranges it.
unfoldable pub ensure_access : Bool → Site → Bench → String → M (Unit {0})
unfolding ensure_ingress ensure_route
ensure_access openshift site bench domain =
    if not (ingress_enabled site.spec.ingress)
    then pure tt
    else if openshift
    then (if route_enabled site.spec.route_config
        then ensure_route site bench domain
        else ensure_ingress site bench domain)
    else ensure_ingress site bench domain
