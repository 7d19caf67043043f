-- ===== src/Site/Init/Writes.antt =====
-- What the initialisation of a site writes.
use frappe_operator.Common.{◌≡◌, ◌⊎◌, inl, inr, refl, String}
use frappe_operator.Types.{Site, Bench}
use frappe_operator.Kube.{Got, got, failed, Job, Call, create_secret, update_secret, create_job}
use frappe_operator.Kube.Traces.{Emits, Emits-bind, emit_rules}
use frappe_operator.Database.{own_key}
use frappe_operator.Database.MariaDbProvider.{DatabaseInfo, DatabaseCredentials}
use frappe_operator.Database.MariaDbProvider.Writes.{annotate-Emits}
use frappe_operator.Site.Jobs.{create_site_job-Emits}
use frappe_operator.Site.Secrets.Writes.{ensure_admin_password-Emits, ensure_init_secrets-Emits}
use frappe_operator.Site.Init.{
  inspect_job, create_init_job, init_by, not_ready, ensure_site_initialized,
}

-- A write to the two secrets or the creation of the job of a site's initialisation.
abbrev pub InitCall : Site → Call → Type 0
InitCall site (create_secret k d) = (k ≡ own_key site "-admin") ⊎ (k ≡ own_key site "-init-secrets")
InitCall site (update_secret k d) = k ≡ own_key site "-init-secrets"
InitCall site (create_job k s) = k ≡ own_key site "-init"
InitCall site _ = ⊥

not_ready-Emits :
    (P : Call → Type 0) (site : Site) (g : Got (Unit {0})) → Emits P (not_ready site g)
not_ready-Emits P site (got x) = search emit_rules
not_ready-Emits P site (failed e) = search emit_rules

inspect_job-Emits : (P : Call → Type 0) (site : Site) (job : Job) → Emits P (inspect_job site job)
unfolding inspect_job
inspect_job-Emits P site job = search emit_rules depth 9

module _ (site : Site) (bench : Bench) (domain : String) (info : DatabaseInfo)
    (creds : DatabaseCredentials) where
  create_init_job-Emits : Emits (InitCall site) (create_init_job site bench domain info creds)
  unfolding create_init_job
  create_init_job-Emits =
      Emits-bind _ _ (ensure_admin_password-Emits site (λ d. inl refl)) (λ password.
        Emits-bind _ _
          (annotate-Emits (InitCall site) _ _ (
            ensure_init_secrets-Emits site bench domain info creds password (λ d. inr refl)
              (λ d. refl)))
          (λ u.
            create_site_job-Emits _ site bench "-init" "site-init" "site_init.sh" "-init-secrets"
              (λ spec. refl)))

  init_by-Emits : (g : Got Job) → Emits (InitCall site) (init_by site bench domain info creds g)
  unfolding init_by
  init_by-Emits (got job) = inspect_job-Emits (InitCall site) site job
  init_by-Emits (failed e) = search (emit_rules, create_init_job-Emits, not_ready-Emits) depth 9

  -- Whatever the cluster answers, the initialisation of a site writes only the site's own secrets
  -- for the administrator and for the initialisation, and creates its own initialisation job.
  pub ensure_site_initialized-InitCall :
      Emits (InitCall site) (ensure_site_initialized site bench domain info creds)
  unfolding ensure_site_initialized
  ensure_site_initialized-InitCall = search (emit_rules, init_by-Emits)
