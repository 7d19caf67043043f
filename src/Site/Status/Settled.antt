-- ===== src/Site/Status/Settled.antt =====
-- A status update of a site that the client accepts.
use frappe_operator.Common.{ℕ, ◌≡◌, refl, none, ◌∷◌}
use frappe_operator.Types.{Site}
use frappe_operator.Kube.{got, Call, update_site_status, History, Api, ◌>>=◌}
use frappe_operator.Kube.Runs.{Runs, retry_on_conflict-Runs}
use frappe_operator.Site.Status.{key_of, try_status, update_status}

module _ (api : Api) (site latest : Site) (h : History)
    (found : api.get_site h (key_of site) ≡ got latest)
    (accepts : (h : History) (c : Call) → api.write h c ≡ none) where
  try_status-Runs :
      Runs api (try_status site) h tt (update_site_status (key_of site) site.status ∷ h)
  unfolding try_status ◌>>=◌
  try_status-Runs = rw (found, accepts h (update_site_status (key_of site) site.status)) refl

  pub update_status-Runs :
      (n : ℕ)
      → Runs api (update_status n site) h tt (update_site_status (key_of site) site.status ∷ h)
  unfolding update_status
  update_status-Runs n = retry_on_conflict-Runs api n (try_status site) h _ try_status-Runs
