-- ===== src/Site/Access/Writes.antt =====
-- What the access to a site writes.
use frappe_operator.Common.{◌≡◌, String, Bool, not}
use frappe_operator.Types.{Site, Bench}
use frappe_operator.Kube.{
  Got, got, failed, Call, is_not_found, raise, create_ingress, create_route, M,
}
use frappe_operator.Kube.Traces.{Emits, Emits-if, Emits-raise, emit_rules}
use frappe_operator.Database.{own_key}
use frappe_operator.Site.Access.{create_if_missing, ensure_ingress, ensure_route, ensure_access}

-- The creation of a site's Ingress or Route.
abbrev pub AccessCall : Site → Call → Type 0
AccessCall site (create_ingress k s) = k ≡ own_key site "-ingress"
AccessCall site (create_route k s) = k ≡ own_key site "-route"
AccessCall site _ = ⊥

create_if_missing-Emits :
    {A : Type 0} (P : Call → Type 0) (make : M (Unit {0}))
    → Emits P make
    → (g : Got A) → Emits P (create_if_missing make g)
unfolding create_if_missing
create_if_missing-Emits P make k (got x) = search emit_rules
create_if_missing-Emits P make k (failed e) =
    Emits-if (not (is_not_found e)) (raise e) make (Emits-raise e) k

module _ (openshift : Bool) (site : Site) (bench : Bench) (domain : String) where
  ensure_ingress-Emits : Emits (AccessCall site) (ensure_ingress site bench domain)
  unfolding ensure_ingress
  ensure_ingress-Emits = search (emit_rules, create_if_missing-Emits) depth 12

  ensure_route-Emits : Emits (AccessCall site) (ensure_route site bench domain)
  unfolding ensure_route
  ensure_route-Emits = search (emit_rules, create_if_missing-Emits) depth 12

  -- The access to a site writes nothing but the creation of its own Ingress or Route.
  pub ensure_access-AccessCall : Emits (AccessCall site) (ensure_access openshift site bench domain)
  unfolding ensure_access
  ensure_access-AccessCall = search (emit_rules, ensure_ingress-Emits, ensure_route-Emits)
