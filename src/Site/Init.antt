-- ===== src/Site/Init.antt =====
-- The job that initialises a site: `ensureSiteInitialized` of controllers/frappesite_jobs.go. The
-- site that the handler changes is part of its result, next to an error, too.
pub mod Writes
pub mod Readiness
use Prim.Native.String.{◌++◌}
use frappe_operator.Common.{
  ℕ, zero, suc, String, Bool, true, false, ◌&&◌, Option, none, some, List, [], ◌∷◌, length, ltb,
  if◌then◌else◌,
}
use frappe_operator.Types.{
  NamespacedName, AppStatus, frappe_only, completed, installing, install_failed, Site, SiteStatus,
  Bench,
}
use frappe_operator.Kube.{
  Err, plain, wrap, Got, got, failed, Job, Pod, Call, create_job, Api, M, pure, raise, ◌>>=◌, ◌>>◌,
  ask, attempt, check, perform, try, is_not_found,
}
use frappe_operator.Database.{own_key}
use frappe_operator.Database.MariaDbProvider.{DatabaseInfo, DatabaseCredentials, annotate, reraise}
use frappe_operator.Site.{create_site_job}
use frappe_operator.Site.Secrets.{ensure_admin_password, ensure_init_secrets}

abbrev pub set_apps : List String → AppStatus → Site → Site
set_apps apps s site = record site {
  status = record site.status { installed_apps = apps; app_installation_status = s };
}

abbrev has_apps : Site → Bool
has_apps site = ltb 0 (length site.spec.apps)

succeeded : Site → Site
succeeded site =
    if has_apps site
    then set_apps site.spec.apps (completed (length site.spec.apps)) site
    else set_apps site.status.installed_apps frappe_only site

-- The status after a failed job, with the last of its pods.
after_failure : Site → Option Pod → Site
after_failure site none = site
after_failure site (some pod) =
    if pod.failed_phase && has_apps site
    then set_apps site.status.installed_apps (install_failed pod.status_message) site
    else site

running : Site → Site
running site =
    if has_apps site
    then set_apps site.status.installed_apps (installing (length site.spec.apps)) site
    else site

inspect_job : Site → Job → M (Site × Got Bool)
unfolding succeeded after_failure running
inspect_job site job =
    if ltb 0 job.succeeded
    then pure (succeeded site, got true)
    else if ltb 0 job.failures
    then (do
      pod ← ask (λ api h. api.last_pod h (own_key site "-init"))
      pure (after_failure site pod, failed (plain "site initialization job failed")))
    else pure (running site, got false)

create_init_job : Site → Bench → String → DatabaseInfo → DatabaseCredentials → M (Unit {0})
create_init_job site bench domain info creds = do
  password ← ensure_admin_password site
  annotate "failed to create init secret: "
      (ensure_init_secrets site bench domain info creds password)
  create_site_job (λ e. e) site bench "-init" "site-init" "site_init.sh" "-init-secrets"

abbrev not_ready : Site → Got (Unit {0}) → M (Site × Got Bool)
not_ready site (got x) = pure (site, got false)
not_ready site (failed e) = pure (site, failed e)

init_by : Site → Bench → String → DatabaseInfo → DatabaseCredentials → Got Job → M (Site × Got Bool)
unfolding inspect_job create_init_job
init_by site bench domain info creds (got job) = inspect_job site job
init_by site bench domain info creds (failed e) =
    if is_not_found e
    then try (create_init_job site bench domain info creds) >>= not_ready site
    else pure (site, failed e)

unfoldable pub ensure_site_initialized :
    Site → Bench → String → DatabaseInfo → DatabaseCredentials → M (Site × Got Bool)
unfolding init_by
ensure_site_initialized site bench domain info creds = do
  job ← ask (λ api h. api.get_job h (own_key site "-init"))
  init_by site bench domain info creds job
