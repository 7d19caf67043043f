-- ===== src/Site/Reconcile.antt =====
-- `Reconcile` of controllers/frappesite_controller.go. Conditions, events and metrics are left out.
pub mod Others
pub mod Evidence
pub mod Progress
pub mod Ready
pub mod Parts
pub mod Settled
use Prim.Native.String.{◌++◌}
use frappe_operator.Common.{
  ℕ, zero, suc, ◌+◌, String, Bool, true, false, ◌&&◌, not, Option, none, some, List, [], ◌∷◌, ◌==◌,
  str_eq, if◌then◌else◌,
}
use mathlib.Core.List.{◌++◌ as ◌+++◌}
use frappe_operator.Common.Int.{ℤ, pos}
use frappe_operator.Types.{NamespacedName, DatabaseConfig, Site, SiteStatus, Bench}
use frappe_operator.Breaker.{CircuitBreaker}
use frappe_operator.Backoff.{Conversion, exponential_backoff}
use frappe_operator.Requeue.{attempt_key, itoa, get_requeue_attempt}
use frappe_operator.Domain.{Service, ServiceKey, Source, source_text, resolve_domain}
use frappe_operator.Kube.{
  Err, plain, wrap, Got, got, failed, Result, Call, update_site_status, update_finalizers,
  patch_annotation, Api, M, pure, raise, nil_dereference, ◌>>=◌, ◌>>◌, ask, attempt, check, perform,
  try, is_not_found, is_conflict, message,
}
use frappe_operator.Database.{
  in_namespace, own_key, resolve_db_config, Provider, mariadb, sqlite, external, new_provider,
}
use frappe_operator.Database.MariaDbProvider as MariaDb
use frappe_operator.Database.MariaDbProvider.{DatabaseInfo, DatabaseCredentials}
use frappe_operator.Database.External as External
use frappe_operator.Database.SqliteProvider as Sqlite
use frappe_operator.Site.Status.{
  Setup, Requeue, done, key_of, update_status, ignore_status, wait, with_phase, pending_then_wait,
  fail,
}
use frappe_operator.Site.{delete_site}
use frappe_operator.Site.Init.{ensure_site_initialized}
use frappe_operator.Site.Access.{ensure_access}

-- The three operations of a provider as the reconciler calls them. The breaker of the external
-- provider is left out: it is new, and at most three calls never meet a refusal.
unfoldable pub provider_ready : Provider → Site → M Bool
provider_ready mariadb site = MariaDb.is_ready site
provider_ready sqlite site = Sqlite.is_ready site
provider_ready external site = External.is_ready site

unfoldable pub provider_ensure : Provider → Site → M DatabaseInfo
provider_ensure mariadb site = MariaDb.ensure_database site
provider_ensure sqlite site = Sqlite.ensure_database site
provider_ensure external site = External.ensure_database site

unfoldable pub provider_credentials : Provider → Site → M DatabaseCredentials
provider_credentials mariadb site = MariaDb.get_credentials site
provider_credentials sqlite site = Sqlite.get_credentials site
provider_credentials external site = External.get_credentials site

abbrev pub site_finalizer : String
site_finalizer = "vyogo.tech/site-finalizer"

unfoldable pub has_finalizer : List String → Bool
has_finalizer [] = false
has_finalizer (f ∷ fs) =
    let more = has_finalizer fs in if str_eq f site_finalizer then true else more

pub remove_finalizer : List String → List String
remove_finalizer [] = []
remove_finalizer (f ∷ fs) =
    let rest = remove_finalizer fs in if str_eq f site_finalizer then rest else f ∷ rest

abbrev with_finalizers : List String → Site → Site
with_finalizers fs site = record site { finalizers = fs }

-- The first step: the site has the finalizer afterwards.
add_finalizer : Site → M Site
unfolding has_finalizer
add_finalizer site = if has_finalizer site.finalizers then pure site else (do
  let fs = site.finalizers +++ (site_finalizer ∷ [])
  perform (λ e. e) (update_finalizers (key_of site) fs)
  pure (with_finalizers fs site))

after_deletion : Setup → Site → Got (Unit {0}) → M Requeue
unfolding remove_finalizer
after_deletion setup site (failed e) = do ignore_status setup site; wait setup 15000000000 site
after_deletion setup site (got x) = do
  perform (λ e. e) (update_finalizers (key_of site) (remove_finalizer site.finalizers))
  pure done

delete_flow : Setup → Site → M Requeue
unfolding after_deletion has_finalizer
delete_flow setup site =
    if has_finalizer site.finalizers
    then (do
      update_status setup.retries site
      deleted ← try (delete_site site)
      after_deletion setup site deleted)
    else pure done

site_url : Site → String → String
site_url site domain = if site.spec.tls.enabled then "https://" ++ domain else "http://" ++ domain

finished : Site → String → Site
unfolding site_url
finished site domain = record site {
  status = record site.status {
    phase = "Ready";
    observed_generation = site.generation;
    site_url = site_url site domain;
  };
}

finalize : Setup → Site → Bench → String → M Requeue
unfolding finished
finalize setup site bench domain = do
  ensure_access setup.is_openshift site bench domain
  update_status setup.retries (finished site domain)
  pure done

after_init : Setup → Bench → String → Site × Got Bool → M Requeue
unfolding finalize
after_init setup bench domain (site, failed e) =
    fail setup ("Site initialization failed: " ++ message e) site
after_init setup bench domain (site, got ready) =
    if ready
    then finalize setup site bench domain
    else pending_then_wait setup "Provisioning" 10000000000 site

abbrev pub with_database : DatabaseInfo → DatabaseCredentials → Site → Site
with_database info creds site = record site {
  status = record site.status {
    database_name = info.name;
    database_credentials_secret = creds.secret_name;
  };
}

-- The errors of the two calls are dropped, and their results dereferenced.
initialize : Setup → Bench → String → Site → Got DatabaseInfo → Got DatabaseCredentials → M Requeue
unfolding after_init
initialize setup bench domain site (failed e) creds = nil_dereference
initialize setup bench domain site (got info) (failed e) = nil_dereference
initialize setup bench domain site (got info) (got creds) = do
  result ← ensure_site_initialized (with_database info creds site) bench domain info creds
  after_init setup bench domain result

after_provision : Setup → Site → Got DatabaseInfo → M Requeue
after_provision setup site (failed e) =
    fail setup ("Database provisioning failed: " ++ message e) site
after_provision setup site (got info) = pending_then_wait setup "Provisioning" 10000000000 site

with_readiness : Setup → Bench → String → Site → Provider → Got Bool → M Requeue
unfolding after_provision initialize provider_ensure provider_credentials
with_readiness setup bench domain site p (failed e) =
    fail setup ("Database provisioning failed: " ++ message e) site
with_readiness setup bench domain site p (got ready) =
    if ready
    then (do
      info ← try (provider_ensure p site)
      creds ← try (provider_credentials p site)
      initialize setup bench domain site info creds)
    else try (provider_ensure p site) >>= after_provision setup site

with_provider : Setup → Bench → String → Site → Got Provider → M Requeue
unfolding with_readiness provider_ready
with_provider setup bench domain site (failed e) =
    fail setup ("Failed to create database provider: " ++ message e) site
with_provider setup bench domain site (got p) = do
  ready ← try (provider_ready p site)
  with_readiness setup bench domain site p ready

abbrev pub with_domain : String × Source → Site → Site
with_domain (domain, source) site = record site {
  status = record site.status { resolved_domain = domain; domain_source = source_text source };
}

on_ready_bench : Setup → Site → Bench → M Requeue
unfolding with_provider
on_ready_bench setup site bench =
    let resolved =
      resolve_domain site.spec.domain site.spec.site_name bench.spec.domain_config setup.services in
    with_provider setup bench resolved.0 (with_domain resolved site)
      (new_provider (resolve_db_config site.spec bench.spec))

on_bench : Setup → Site → Got Bench → M Requeue
unfolding on_ready_bench
on_bench setup site (failed e) = pending_then_wait setup "Pending" 30000000000 site
on_bench setup site (got bench) =
    if not (str_eq bench.status.phase "Ready")
    then pending_then_wait setup "Pending" 10000000000 site
    else on_ready_bench setup site bench

with_bench_ref : Setup → Site → Option NamespacedName → M Requeue
unfolding on_bench
with_bench_ref setup site none = fail setup "benchRef is required" site
with_bench_ref setup site (some r) = do
  bench ← ask (λ api h. api.get_bench h (in_namespace site r))
  on_bench setup site bench

pub progress : Setup → Site → M Requeue
unfolding with_bench_ref
progress setup site = do
  update_status setup.retries site
  with_bench_ref setup site site.spec.bench_ref

-- A site whose status says that it is ready for this generation is left alone, also if it is being
-- deleted: the deletion itself counts as a generation.
reconcile_site : Setup → Site → M Requeue
unfolding delete_flow progress
reconcile_site setup site =
    if str_eq site.status.phase "Ready" && site.status.observed_generation == site.generation
    then pure done
    else if site.deleting
    then delete_flow setup site
    else progress setup site

reconcile_found : Setup → Got Site → M Requeue
unfolding add_finalizer reconcile_site
reconcile_found setup (failed e) = if is_not_found e then pure done else raise e
reconcile_found setup (got site) = add_finalizer site >>= reconcile_site setup

unfoldable pub reconcile : Setup → NamespacedName → M Requeue
unfolding reconcile_found
reconcile setup key = do site ← ask (λ api h. api.get_site h key); reconcile_found setup site
